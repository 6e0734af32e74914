-- ===== src/Service/History.antt =====
-- The service over time: requests served one after another, beside the server's own deletion of
-- expired tokens. What each step of the policy keeps, every history keeps.
pub mod Accounts
pub mod Tokens
pub mod Once
pub mod Rights
pub mod Catalogue
pub mod Spent
use ch_api_authenticator.Service.Policy.{Given}
use ch_api_authenticator.Mongo.{Store}
use ch_api_authenticator.Service.Requests.Steps.{serve-Steps}
use ch_api_authenticator.Mongo.Docs.{remove_all}
use ch_api_authenticator.Service.Policy.{Step, Steps, here, next}
use ch_api_authenticator.Repository.ResetTokens.{ResetToken}
use ch_api_authenticator.Service.Requests.{Request, serve}
use ch_api_authenticator.Repository.RefreshTokens.{RefreshToken}
use ch_api_authenticator.Domain.User.{DateTime}
use ch_api_authenticator.Base.{Bool, leb, ℕ, ◌&&◌}
use ch_api_authenticator.State.{Ambient, AppState, Platform, World}

-- The server's task that deletes tokens, of those that a test picks.
abbrev pub drop_refresh : (RefreshToken → Bool) → ℕ → World → World
drop_refresh p seed w =
    let left : Store RefreshToken = record {
      docs = remove_all p w.refresh_tokens.docs;
      seed = seed;
    } in
    record w { refresh_tokens = left }

abbrev pub drop_reset : (ResetToken → Bool) → ℕ → World → World
drop_reset p seed w =
    let left : Store ResetToken = record { docs = remove_all p w.reset_tokens.docs; seed = seed } in
    record w { reset_tokens = left }

module _ (x : Platform) (state : AppState) (Allowed : Ambient → Type 0) where
  -- `Allowed` says of what each request may come with.
  pub data History (w : World) : World → Type 0 where
    start : History w w
    serves :
        {v : World} (ambient : Ambient) (request : Request)
        → Allowed ambient
        → History w v
        → History w (serve x state ambient request v).1
    expires_refresh :
        {v : World} (now : DateTime) (reached : RefreshToken → Bool) (seed : ℕ)
        → History w v
        → History w (drop_refresh (λ t. reached t && leb t.expires_at now) seed v)
    expires_reset :
        {v : World} (now : DateTime) (reached : ResetToken → Bool) (seed : ℕ)
        → History w v
        → History w (drop_reset (λ t. reached t && leb t.expires_at now) seed v)

  -- A property of the state that each write and each deletion keeps.
  pub record IsKept (P : World → Type 0) : Type 0 where
    pub by_step :
        (ambient : Ambient) (given : Given) (v w : World)
        → Allowed ambient
        → Step x state ambient given v w
        → P v
        → P w
    pub by_refresh :
        (p : RefreshToken → Bool) (seed : ℕ) (w : World) → P w → P (drop_refresh p seed w)
    pub by_reset : (p : ResetToken → Bool) (seed : ℕ) (w : World) → P w → P (drop_reset p seed w)

module _ {x : Platform} {state : AppState} {Allowed : Ambient → Type 0} (P : World → Type 0)
    (k : IsKept x state Allowed P) where
  pub Steps-keeps :
      {ambient : Ambient} {given : Given} {v w : World}
      → Allowed ambient
      → Steps x state ambient given v w
      → P v
      → P w
  Steps-keeps a here held = held
  Steps-keeps {ambient} {given} a (next {v} {u} steps step) held =
      k.by_step ambient given v u a step (Steps-keeps a steps held)

  pub History-keeps : {v w : World} → History x state Allowed v w → P v → P w
  History-keeps start held = held
  History-keeps (serves {v} ambient request a history) held =
      Steps-keeps a (serve-Steps x state ambient request v) (History-keeps history held)
  History-keeps (expires_refresh {v} now reached seed history) held =
      k.by_refresh _ seed v (History-keeps history held)
  History-keeps (expires_reset {v} now reached seed history) held =
      k.by_reset _ seed v (History-keeps history held)
