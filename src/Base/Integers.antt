-- ===== src/Base/Integers.antt =====
-- Signed integers, over the native natural numbers.
use ch_api_authenticator.Base.{ℕ}

pub data ℤ : Type 0 where
  pos : ℕ → ℤ
  negsuc : ℕ → ℤ

-- `n.max(0) as u64`
abbrev pub to_nat : ℤ → ℕ
to_nat (pos n) = n
to_nat (negsuc n) = 0
