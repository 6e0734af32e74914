-- ===== src/Service/History/Tokens.antt =====
-- The refresh tokens and the reset tokens over every history of the service.
use ch_api_authenticator.Service.Policy.{Given}
use ch_api_authenticator.Mongo.Docs.{remove_all}
use ch_api_authenticator.Repository.OneUse.{hash_spent}
use ch_api_authenticator.Mongo.Unique.{conflict_free}
use ch_api_authenticator.Base.Lists.{all}
use ch_api_authenticator.Repository.ResetTokens.{ResetToken, use_up}
use ch_api_authenticator.Service.Policy.{RefreshTokensWrite, ResetTokensWrite, Step}
use ch_api_authenticator.Repository.RefreshTokens.{RefreshToken, revoke}
use ch_api_authenticator.Service.History.{IsKept}
use ch_api_authenticator.Base.{Bool, List, String, refl, true, ◌≡◌, ◌≢◌}
use ch_api_authenticator.State.{Ambient, AppState, Platform, World}
use ch_api_authenticator.Repository.OneUse
use ch_api_authenticator.Repository.RefreshTokens
use ch_api_authenticator.Repository.ResetTokens

abbrev pub refresh_hash : RefreshToken → String
refresh_hash t = t.token_hash

abbrev pub is_revoked : RefreshToken → Bool
is_revoked t = t.revoked

abbrev pub reset_hash : ResetToken → String
reset_hash t = t.token_hash

abbrev pub is_used : ResetToken → Bool
is_used t = t.used

abbrev pub AnyRequest : Ambient → Type 0
AnyRequest ambient = Unit {0}

-- The token that is drawn for the request has another hash.
abbrev pub DrawsOther : Platform → String → Ambient → Type 0
DrawsOther x h ambient = x.crypto.hash_token ambient.token ≢ h

module _ (x : Platform) (state : AppState) (Allowed : Ambient → Type 0) where
  -- A property of the refresh tokens that each write and the deletion of expired ones keep.
  pub record RefreshKept (P : List RefreshToken → Type 0) : Type 0 where
    pub by_write :
        (ambient : Ambient) (before after : List RefreshToken)
        → Allowed ambient
        → RefreshTokensWrite x state ambient before after
        → P before
        → P after
    pub by_removal : (p : RefreshToken → Bool) (ts : List RefreshToken) → P ts → P (remove_all p ts)

  pub record ResetKept (P : List ResetToken → Type 0) : Type 0 where
    pub by_write :
        (ambient : Ambient) (before after : List ResetToken)
        → Allowed ambient
        → ResetTokensWrite x state ambient before after
        → P before
        → P after
    pub by_removal : (p : ResetToken → Bool) (ts : List ResetToken) → P ts → P (remove_all p ts)

module _ {x : Platform} {state : AppState} {Allowed : Ambient → Type 0} where
  refresh-Step :
      (P : List RefreshToken → Type 0)
      → RefreshKept x state Allowed P
      → (ambient : Ambient) (given : Given) (v w : World) → Allowed ambient
      → Step x state ambient given v w
      → P v.refresh_tokens.docs
      → P w.refresh_tokens.docs
  refresh-Step P k ambient given v w a (Step.refresh_tokens u s write) held =
      k.by_write ambient u.refresh_tokens.docs s.docs a write held
  refresh-Step P k ambient given v w a (Step.accounts u s write) held = held
  refresh-Step P k ambient given v w a (Step.roles u s write) held = held
  refresh-Step P k ambient given v w a (Step.settings u s right) held = held
  refresh-Step P k ambient given v w a (Step.login_events u s) held = held
  refresh-Step P k ambient given v w a (Step.reset_tokens u s write) held = held
  refresh-Step P k ambient given v w a (Step.limits u b c d) held = held
  refresh-Step P k ambient given v w a (Step.mails u email) held = held
  refresh-Step P k ambient given v w a (Step.publishes u event right) held = held

  reset-Step :
      (P : List ResetToken → Type 0)
      → ResetKept x state Allowed P
      → (ambient : Ambient) (given : Given) (v w : World) → Allowed ambient
      → Step x state ambient given v w
      → P v.reset_tokens.docs
      → P w.reset_tokens.docs
  reset-Step P k ambient given v w a (Step.reset_tokens u s write) held =
      k.by_write ambient u.reset_tokens.docs s.docs a write held
  reset-Step P k ambient given v w a (Step.accounts u s write) held = held
  reset-Step P k ambient given v w a (Step.roles u s write) held = held
  reset-Step P k ambient given v w a (Step.settings u s right) held = held
  reset-Step P k ambient given v w a (Step.login_events u s) held = held
  reset-Step P k ambient given v w a (Step.refresh_tokens u s write) held = held
  reset-Step P k ambient given v w a (Step.limits u b c d) held = held
  reset-Step P k ambient given v w a (Step.mails u email) held = held
  reset-Step P k ambient given v w a (Step.publishes u event right) held = held

  pub refresh-IsKept :
      (P : List RefreshToken → Type 0)
      → RefreshKept x state Allowed P
      → IsKept x state Allowed (λ w. P w.refresh_tokens.docs)
  refresh-IsKept P k = record {
    by_step = refresh-Step P k;
    by_refresh = λ p seed w held. k.by_removal p w.refresh_tokens.docs held;
    by_reset = λ p seed w held. held;
  }

  pub reset-IsKept :
      (P : List ResetToken → Type 0)
      → ResetKept x state Allowed P
      → IsKept x state Allowed (λ w. P w.reset_tokens.docs)
  reset-IsKept P k = record {
    by_step = reset-Step P k;
    by_refresh = λ p seed w held. held;
    by_reset = λ p seed w held. k.by_removal p w.reset_tokens.docs held;
  }

abbrev pub UniqueRefresh : List RefreshToken → Type 0
UniqueRefresh ts = conflict_free RefreshTokens.same_hash ts ≡ true

abbrev pub UniqueReset : List ResetToken → Type 0
UniqueReset ts = conflict_free ResetTokens.same_hash ts ≡ true

abbrev pub SpentRefresh : String → List RefreshToken → Type 0
SpentRefresh h ts =
    all (OneUse.hash_spent refresh_hash is_revoked revoke (λ t. refl) (λ t. refl) h) ts ≡ true

abbrev pub SpentReset : String → List ResetToken → Type 0
SpentReset h ts =
    all (OneUse.hash_spent reset_hash is_used use_up (λ t. refl) (λ t. refl) h) ts ≡ true
