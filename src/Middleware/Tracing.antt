-- ===== src/Middleware/Tracing.antt =====
-- middleware/tracing.rs: the correlation id of a request, the client's or a new one. The access log
-- and the spans are output of the program and left out.
use ch_api_authenticator.Base.{arith}
use ch_api_authenticator.Base.{Option, false, ◌==◌, ◌≡◌}
use ch_api_authenticator.Base.{String, none, some, if◌then◌else◌}
use ch_api_authenticator.Base.Text.{trim, is_empty}
use ch_api_authenticator.Services.Net.{Headers}

abbrev pub correlation_header : String
correlation_header = "x-correlation-id"

-- The first half of `correlation_and_access_log`, with the id that `Uuid::new_v4` draws.
unfoldable pub correlation_id : String → Headers → String
correlation_id drawn headers = elim (headers correlation_header) [
  | none ↦ drawn
  | some value ↦ if is_empty (trim value) then drawn else trim value
]

-- The second half, on the headers of the answer: `HeaderValue::from_str` is a parameter, and an id
-- that is no header value is left out.
unfoldable pub with_correlation_id :
    (String → Option String) → String → (String → Option String) → String → Option String
with_correlation_id from_str id response name = elim (from_str id) [
  | none ↦ response name
  | some value ↦ if name == correlation_header then some value else response name
]

-- A client that sends a correlation id reads it again in the answer, trimmed, if it is a header value.
pub with_correlation_id-correlation_id :
    (from_str : String → Option String) (drawn sent : String) (headers : Headers)
    (response : String → Option String)
    → headers correlation_header ≡ some sent
    → is_empty (trim sent) ≡ false
    → from_str (trim sent) ≡ some (trim sent)
    → with_correlation_id from_str (correlation_id drawn headers) response correlation_header
      ≡ some (trim sent)
unfolding with_correlation_id correlation_id
with_correlation_id-correlation_id from_str drawn sent headers response h full valid = ground arith
