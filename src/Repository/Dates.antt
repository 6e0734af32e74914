-- ===== src/Repository/Dates.antt =====
-- Dates with a time to live, as repository/refresh_tokens.rs and repository/reset_tokens.rs compute
-- them: `DateTime::from_millis(now.timestamp_millis() + ttl.as_millis() as i64)`.
use ch_api_authenticator.Base.{ℕ, ◌+◌, ◌*◌, ◌%◌, ◌^◌, ◌≡◌, ◌<◌, arith, ltb, if◌then◌else◌}
use ch_api_authenticator.Domain.User.{DateTime}

-- A `u64`, or an `i64` read as its bits.
abbrev pub wrap64 : ℕ → ℕ
wrap64 n = n % 2 ^ 64

-- The sum in 64 bits. A date before 1970 is kept as 0: the program only asks of an expiry date
-- whether it is later than a reading of the clock, which it is in neither case.
unfoldable pub expiry : DateTime → ℕ → DateTime
expiry now ttl_seconds =
    let sum = wrap64 (now + wrap64 (ttl_seconds * 1000)) in if ltb sum (2 ^ 63) then sum else 0

-- An expiry date is the time plus the time to live, exactly, given that the sum is below 2 ^ 63
-- milliseconds.
pub expiry_exact :
    (now ttl_seconds : ℕ)
    → now + ttl_seconds * 1000 < 2 ^ 63
    → expiry now ttl_seconds ≡ now + ttl_seconds * 1000
unfolding expiry
expiry_exact now ttl_seconds h = ground arith
