-- ===== src/Services/Relay.antt =====
-- services/relay.rs: the publisher of events. The RS256 crate is a parameter, and so is the MQTT
-- client, which is kept as the options that it is made with.
use ch_api_authenticator.Base.{false, ◌≢◌}
use ch_api_authenticator.Exec.Laws.{ok_injective}
use ch_api_authenticator.Base.{Bool-cases, arith, inl, inr, refl, sym}
use ch_api_authenticator.Repository.Dates.{wrap64}
use ch_api_authenticator.Exec.{Result, err, ok}
use ch_api_authenticator.Config.{RelayConfig, Secrets}
use ch_api_authenticator.Base.{
  Bool, List, Option, String, [], if◌then◌else◌, none, some, true, ℕ, ◌+◌, ◌∷◌, ◌≡◌,
}

pub data RelayError : Type 0 where
  missing_signing_key : RelayError
  invalid_signing_key : String → RelayError

pub record RelayClaims : Type 0 where
  pub sub : String
  pub roles : List String
  pub iss : String
  pub iat : ℕ
  pub exp : ℕ

-- `EncodingKey::from_rsa_pem`, whose key is kept as its text, and `encode` with RS256.
pub record Rs256 : Type 0 where
  pub from_rsa_pem : String → Result String (Unit {0})
  pub encode : RelayClaims → String → Result String String

pub record MqttOptions : Type 0 where
  pub client_id : String
  pub host : String
  pub port : ℕ
  pub clean_start : Bool
  pub keep_alive : ℕ
  pub username : String
  pub password : String

pub data RelayPublisher : Type 0 where
  disabled : RelayPublisher
  connected : MqttOptions → RelayPublisher

abbrev pub relay_claims : ℕ → String → List String → ℕ → RelayClaims
relay_claims now identity roles ttl = record {
  sub = identity;
  roles = roles;
  iss = identity;
  iat = now;
  exp = wrap64 (now + ttl);
}

connected_injective : {a b : MqttOptions} → connected a ≡ connected b → a ≡ b
connected_injective e = cc

disabled-connected : {a : MqttOptions} → disabled ≢ connected a
disabled-connected e = cc

module _ (crate : Rs256) (now : ℕ) where
  unfoldable pub sign_relay_token : String → List String → String → ℕ → Result String String
  sign_relay_token identity roles key ttl = crate.encode (relay_claims now identity roles ttl) key

  -- `map_err(|e| RelayError::InvalidSigningKey(e.to_string()))?`
  abbrev or_invalid :
      {A B : Type 0} → Result String A → (A → Result RelayError B) → Result RelayError B
  or_invalid (ok a) f = f a
  or_invalid (err e) f = err (invalid_signing_key e)

  abbrev pub options_of : RelayConfig → String → MqttOptions
  options_of config token = record {
    client_id = config.client_id;
    host = config.host;
    port = config.port;
    clean_start = true;
    keep_alive = 30;
    username = config.identity;
    password = token;
  }

  connect_with : RelayConfig → Option String → Result RelayError RelayPublisher
  unfolding sign_relay_token
  connect_with config none = err missing_signing_key
  connect_with config (some key) = or_invalid (crate.from_rsa_pem key) λ _.
      or_invalid (sign_relay_token config.identity ("auth" ∷ []) key config.token_ttl_seconds)
        λ token. ok (connected (options_of config token))

  unfoldable pub from_settings : RelayConfig → Secrets → Result RelayError RelayPublisher
  unfolding connect_with
  from_settings config secrets =
      if config.enabled then connect_with config secrets.relay_jwt_private_key else ok disabled

  or_invalid-eq-ok :
      {A B : Type 0} (r : Result String A) (f : A → Result RelayError B) (b : B)
      → or_invalid r f ≡ ok b
      → (a : A) × (r ≡ ok a) × (f a ≡ ok b)
  or_invalid-eq-ok (ok a) f b e = (a, refl, e)
  or_invalid-eq-ok (err error) f b e = cc

  connect_with-ok :
      (config : RelayConfig) (key : Option String) (publisher : RelayPublisher)
      → connect_with config key ≡ ok publisher
      → (pem : String) × (token : String) × (key ≡ some pem)
        × (crate.encode
              (relay_claims now config.identity ("auth" ∷ []) config.token_ttl_seconds)
              pem
            ≡ ok token)
        × (publisher ≡ connected (options_of config token))
  unfolding connect_with
  connect_with-ok config none publisher e = cc
  connect_with-ok config (some pem) publisher e =
      let (_, _, rest) = or_invalid-eq-ok (crate.from_rsa_pem pem) _ publisher e in
      let (token, signed, same) = or_invalid-eq-ok _ _ publisher rest in
      (pem, token, refl, signed, sym (ok_injective _ _ _ refl same))

  -- The publisher is connected only if the configuration enables it and there is a key; it presents
  -- the identity of the configuration with a token that the key signs, of that identity and for
  -- the configured time.
  pub from_settings-connected :
      (config : RelayConfig) (secrets : Secrets) (options : MqttOptions)
      → from_settings config secrets ≡ ok (connected options)
      → (config.enabled ≡ true)
        × (pem : String) × (token : String) × (secrets.relay_jwt_private_key ≡ some pem)
        × (crate.encode
              (relay_claims now config.identity ("auth" ∷ []) config.token_ttl_seconds)
              pem
            ≡ ok token)
        × (options ≡ options_of config token)
  unfolding from_settings
  from_settings-connected config secrets options e = elim (Bool-cases config.enabled) [
    | inl on ↦
        let (pem, token, key, signed, same) =
          connect_with-ok config secrets.relay_jwt_private_key (connected options) (rw on at e) in
        (on, pem, token, key, signed, connected_injective same)
    | inr off ↦ absurd (ground arith)
  ]

  -- A publisher that is off is what the configuration asked for, not a key that is missing.
  pub from_settings-disabled :
      (config : RelayConfig) (secrets : Secrets)
      → from_settings config secrets ≡ ok disabled
      → config.enabled ≡ false
  unfolding from_settings
  from_settings-disabled config secrets e = elim (Bool-cases config.enabled) [
    | inl on ↦
        let (_, _, _, _, same) =
          connect_with-ok config secrets.relay_jwt_private_key disabled (rw on at e) in
        absurd (disabled-connected same)
    | inr off ↦ off
  ]
