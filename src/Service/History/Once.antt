-- ===== src/Service/History/Once.antt =====
-- A token renews a session once, and resets a password once, whatever is served in between.
use ch_api_authenticator.Service.History.Spent.{
  SpentRefresh-kept, SpentReset-kept, UniqueRefresh-kept, UniqueReset-kept,
}
use ch_api_authenticator.Exec.Laws.{ok_injective}
use ch_api_authenticator.Base.{ap}
use ch_api_authenticator.Handlers.Password.Laws.{reset-IsReset}
use ch_api_authenticator.Service.History.Tokens.{reset-IsKept}
use ch_api_authenticator.Exec.Laws.{none-ne-some, some_injective}
use ch_api_authenticator.Repository.OneUse.{find-can_use, spent-use}
use ch_api_authenticator.Base.{[], ltb, ◌∙◌, ◌≢◌}
use ch_api_authenticator.Handlers.Password.{ResetRequest}
use ch_api_authenticator.Service.History.{History, History-keeps}
use ch_api_authenticator.Handlers.Session.{refresh}
use ch_api_authenticator.Handlers.Password.{reset}
use ch_api_authenticator.Repository.OneUse.{
  shares_hash-sym, spent-append, spent-remove_all, spent-spend_all, spent-spend_first,
  unique-remove_all, unique-spend_all, unique-spend_first,
}
use ch_api_authenticator.Exec.{ok}
use ch_api_authenticator.Handlers.Cookies.{cookie_value}
use ch_api_authenticator.Service.History.{Steps-keeps}
use ch_api_authenticator.Handlers.Session.Create.{Session}
use ch_api_authenticator.Repository.ResetTokens.{use_up}
use ch_api_authenticator.Repository.RefreshTokens.{revoke}
use ch_api_authenticator.Base.{String, refl, some, subst, sym, ◌≡◌}
use ch_api_authenticator.Handlers.Session.Steps.{refresh-IsRotation}
use ch_api_authenticator.Service.History.Tokens.{
  AnyRequest, DrawsOther, SpentRefresh, SpentReset, UniqueRefresh, UniqueReset, is_revoked, is_used,
  refresh-IsKept, refresh_hash, reset_hash,
}
use ch_api_authenticator.State.{Ambient, AppState, Platform, World}
use ch_api_authenticator.Repository.OneUse

module _ (x : Platform) (state : AppState) where
  -- After a successful renewal the presented token is spent.
  refresh-SpentRefresh :
      (ambient : Ambient) (token : String) (w : World) (renewed : Session)
      → cookie_value ambient.headers state.settings.config.token.refresh_cookie_name ≡ some token
      → DrawsOther x (x.crypto.hash_token token) ambient
      → UniqueRefresh w.refresh_tokens.docs
      → (refresh x state ambient w).0 ≡ ok renewed
      → SpentRefresh (x.crypto.hash_token token) (refresh x state ambient w).1.refresh_tokens.docs
  refresh-SpentRefresh ambient token w renewed presented other unique e =
      let r = refresh-IsRotation x state ambient w renewed e in
      let same : r.token ≡ token = some_injective _ _ (sym r.presented ∙ presented) in
      subst
        (λ t.
          SpentRefresh (x.crypto.hash_token t) (refresh x state ambient w).1.refresh_tokens.docs)
        same
        (Steps-keeps _
          (refresh-IsKept (SpentRefresh (x.crypto.hash_token r.token))
            (SpentRefresh-kept x state (x.crypto.hash_token r.token)))
          (subst (λ t. DrawsOther x (x.crypto.hash_token t) ambient) (sym same) other) r.rest
          (subst (SpentRefresh (x.crypto.hash_token r.token)) (sym r.revoked) (
            OneUse.spent-use refresh_hash is_revoked revoke (λ t. refl) (λ t. refl)
              (x.crypto.hash_token r.token) (λ t. ltb (ambient.clock 0) t.expires_at)
              w.refresh_tokens.docs r.stored unique r.usable)))

  -- A refresh token renews a session at most once. Given that the service started with no refresh
  -- tokens and that whatever is served after the renewal draws tokens of other hashes: after a
  -- renewal that succeeded, no request that presents the same token renews a session.
  pub refresh_once :
      (ambient later : Ambient) (token : String) (empty w v : World) (first second : Session)
      → empty.refresh_tokens.docs ≡ []
      → History x state AnyRequest empty w
      → cookie_value ambient.headers state.settings.config.token.refresh_cookie_name ≡ some token
      → cookie_value later.headers state.settings.config.token.refresh_cookie_name ≡ some token
      → DrawsOther x (x.crypto.hash_token token) ambient
      → (refresh x state ambient w).0 ≡ ok first
      → History x state (DrawsOther x (x.crypto.hash_token token)) (refresh x state ambient w).1 v
      → (refresh x state later v).0 ≢ ok second
  refresh_once ambient later token empty w v first second none_yet before presented again other won
        between e =
      let unique : UniqueRefresh w.refresh_tokens.docs =
        History-keeps _ (refresh-IsKept UniqueRefresh (UniqueRefresh-kept x state)) before
          (subst UniqueRefresh (sym none_yet) refl) in
      let spent : SpentRefresh (x.crypto.hash_token token) v.refresh_tokens.docs =
        History-keeps _
          (refresh-IsKept (SpentRefresh (x.crypto.hash_token token))
            (SpentRefresh-kept x state (x.crypto.hash_token token)))
          between (refresh-SpentRefresh ambient token w first presented other unique won) in
      let r = refresh-IsRotation x state later v second e in
      let same : r.token ≡ token = some_injective _ _ (sym r.presented ∙ again) in
      none-ne-some (
        sym (
          OneUse.find-can_use refresh_hash is_revoked revoke (λ t. refl) (λ t. refl)
            (x.crypto.hash_token r.token) (λ t. ltb (later.clock 0) t.expires_at)
            v.refresh_tokens.docs
            (subst (λ t. SpentRefresh (x.crypto.hash_token t) v.refresh_tokens.docs) (sym same)
              spent))
        ∙ r.usable)

  -- A reset token resets a password at most once. Given that the service started with no reset
  -- tokens and that whatever is served after the reset draws tokens of other hashes: after a
  -- reset that succeeded, no request with the same token resets a password.
  pub reset_once :
      (ambient later : Ambient) (request again : ResetRequest) (empty w v : World)
      (first second : String)
      → empty.reset_tokens.docs ≡ []
      → History x state AnyRequest empty w
      → again.token ≡ request.token
      → (reset x state ambient (ok request) w).0 ≡ ok first
      → History x state
          (DrawsOther x (x.crypto.hash_token request.token))
          (reset x state ambient (ok request) w).1
          v
      → (reset x state later (ok again) v).0 ≢ ok second
  reset_once ambient later request again empty w v first second none_yet before same won between e =
      let unique : UniqueReset w.reset_tokens.docs =
        History-keeps _ (reset-IsKept UniqueReset (UniqueReset-kept x state)) before
          (subst UniqueReset (sym none_yet) refl) in
      let (sent, is_request, won_by) = reset-IsReset x state ambient w (ok request) first won in
      let (resent, is_again, won_again) = reset-IsReset x state later v (ok again) second e in
      let of_request : sent.token ≡ request.token =
        ap (λ r. r.token) (sym (ok_injective _ _ _ refl is_request)) in
      let of_again : resent.token ≡ request.token =
        ap (λ r. r.token) (sym (ok_injective _ _ _ refl is_again)) ∙ same in
      let spent : SpentReset (x.crypto.hash_token request.token) v.reset_tokens.docs =
        History-keeps _
          (reset-IsKept (SpentReset (x.crypto.hash_token request.token))
            (SpentReset-kept x state (x.crypto.hash_token request.token)))
          between
          (subst
            (λ t.
              SpentReset (x.crypto.hash_token t)
                (reset x state ambient (ok request) w).1.reset_tokens.docs)
            of_request
            (subst (SpentReset (x.crypto.hash_token sent.token)) (sym won_by.used) (
              OneUse.spent-use reset_hash is_used use_up (λ t. refl) (λ t. refl)
                (x.crypto.hash_token sent.token) (λ t. ltb (ambient.clock 0) t.expires_at)
                w.reset_tokens.docs won_by.stored unique won_by.usable))) in
      none-ne-some (
        sym (
          OneUse.find-can_use reset_hash is_used use_up (λ t. refl) (λ t. refl)
            (x.crypto.hash_token resent.token) (λ t. ltb (later.clock 0) t.expires_at)
            v.reset_tokens.docs
            (subst (λ t. SpentReset (x.crypto.hash_token t) v.reset_tokens.docs) (sym of_again)
              spent))
        ∙ won_again.usable)
