-- ===== src/Services/Missive.antt =====
-- services/missive.rs: the client of the mail service, and the request that it sends.
use Prim.Native.Char.{Char, code}
use ch_api_authenticator.Base.{◌++◌}
use ch_api_authenticator.Base.Text.{is_empty}
use ch_api_authenticator.Config.{MissiveConfig, Secrets}
use ch_api_authenticator.Base.{
  Bool, Bool-cases, Option, String, arith, refl, inl, inr, eqb, false, if◌then◌else◌, refl, some,
  ◌&&◌, ◌≡◌,
}

pub record MissiveClient : Type 0 where
  pub send_url : String
  pub secret : String

-- `EmailMessage`, with what its serialization gives.
pub record EmailMessage : Type 0 where
  pub channel : String
  pub to : String
  pub subject : String
  pub text : Option String

pub record MissiveRequest : Type 0 where
  pub url : String
  pub internal_secret : String
  pub message : EmailMessage

abbrev trim_cons : Char → String → String
trim_cons c rest = if eqb (code c) b'/' && is_empty rest then "" else String.◌∷◌ c rest

-- `trim_end_matches('/')`
unfoldable pub trim_end_slashes : String → String
trim_end_slashes String.[] = ""
trim_end_slashes (String.◌∷◌ c s) = trim_cons c (trim_end_slashes s)

-- `MissiveClient::new`; that the HTTP client is built is the caller's hypothesis.
unfoldable pub new : MissiveConfig → Secrets → MissiveClient
new config secrets = record {
  send_url = trim_end_slashes config.url ++ "/v1/send";
  secret = secrets.missive_api_secret;
}

-- The request of `send_email`; its answer is logged only.
unfoldable pub email_request : MissiveClient → String → String → String → MissiveRequest
email_request client to subject text = record {
  url = client.send_url;
  internal_secret = client.secret;
  message = record { channel = "email"; to = to; subject = subject; text = some text };
}

abbrev pub ends_with_slash : String → Bool
ends_with_slash String.[] = false
ends_with_slash (String.◌∷◌ c String.[]) = eqb (code c) b'/'
ends_with_slash (String.◌∷◌ c (String.◌∷◌ d s)) = ends_with_slash (String.◌∷◌ d s)

ends_with_slash-trim_cons :
    (c : Char) (rest : String)
    → ends_with_slash rest ≡ false
    → ends_with_slash (trim_cons c rest) ≡ false
ends_with_slash-trim_cons c String.[] e = elim (Bool-cases (eqb (code c) b'/')) [
  | inl slash ↦ rw slash refl
  | inr other ↦ rw other other
]
ends_with_slash-trim_cons c (String.◌∷◌ d s) e = ground arith

-- The address before the path has no slash left at its end.
pub ends_with_slash-trim_end_slashes : (s : String) → ends_with_slash (trim_end_slashes s) ≡ false
unfolding trim_end_slashes
ends_with_slash-trim_end_slashes String.[] = refl
ends_with_slash-trim_end_slashes (String.◌∷◌ c s) =
    ends_with_slash-trim_cons c (trim_end_slashes s) (ends_with_slash-trim_end_slashes s)
