-- ===== src/Handlers/Password/Forgot.antt =====
-- What a request to reset a password writes and sends.
use ch_api_authenticator.Repository.ResetTokens.Calls.{replace_for_user-ok, replacement}
use ch_api_authenticator.Mongo.Docs.{remove_all}
use ch_api_authenticator.Exec.Laws.{invert_run, ok_injective, ok_or-eq-ok, relabel-eq-ok}
use ch_api_authenticator.Repository.Users.{has_email, loaded}
use ch_api_authenticator.Repository.Users.Calls.{find_by_email-ok}
use ch_api_authenticator.Base.Lists.{find}
use ch_api_authenticator.Handlers.Request.Laws.{accepted-eq-ok}
use ch_api_authenticator.Mongo.{Store}
use ch_api_authenticator.Exec.{Result, ok}
use ch_api_authenticator.Repository.ResetTokens.{ResetToken, is_of_user}
use ch_api_authenticator.Domain.User.{ObjectId, User, normalize_email}
use ch_api_authenticator.Base.{
  List, Option, String, [], ap, inl, inr, none, refl, some, subst, sym, ◌∙◌, ◌∷◌, ◌≡◌, ◌⊎◌,
}
use ch_api_authenticator.Error.{JsonRejection, internal}
use ch_api_authenticator.Handlers.Password.{
  ForgotRequest, forgot, offer_reset, reset_email, reset_ttl,
}
use ch_api_authenticator.State.{
  Ambient, AppState, Email, Platform, World, enforce_forgot, send_email,
}
use mathlib.Core.List
use mathlib.Core.Option

module _ (x : Platform) (state : AppState) (ambient : Ambient) where
  -- The token that is stored for an account among those there were, and the email with its link:
  -- what led to the world.
  pub record IsOffer (tokens : Store ResetToken) (emails : List Email) (w : World) (user : User)
      : Type 0 where
    pub id : ObjectId
    pub identified : user.id ≡ some id
    pub stored :
        w.reset_tokens.docs
        ≡ List.◌++◌ (remove_all (is_of_user id) tokens.docs) (
            replacement
              (ambient.clock 0)
              id
              (x.crypto.hash_token ambient.token)
              (reset_ttl x state ambient)
            ∷ [])
    pub sent : w.emails ≡ reset_email x state ambient user ∷ emails

  -- Nothing stored or sent where there is no account, else an offer to it.
  abbrev pub IsAnswered : Option User → Store ResetToken → List Email → World → Type 0
  IsAnswered found tokens emails w =
      ((found ≡ none) × (w.reset_tokens ≡ tokens) × (w.emails ≡ emails))
      ⊎ ((user : User) × (found ≡ some user) × IsOffer tokens emails w user)

  offer_reset-IsAnswered :
      (found : Option User) (w : World)
      → (offer_reset x state ambient found w).0 ≡ ok tt
      → IsAnswered found w.reset_tokens w.emails (offer_reset x state ambient found w).1
  unfolding offer_reset send_email
  offer_reset-IsAnswered none w e = inl (refl, refl, refl)
  offer_reset-IsAnswered (some user) w e = invert_run _ _ _ e λ id identified r₁ e₁.
      invert_run _ _ _ e₁ λ _ wrote r₂ e₂.
        let same = ap (λ r. r.1) (r₁ ∙ r₂) in
        inr (
          user,
          refl,
          record {
            id = id;
            identified = ok_or-eq-ok _ internal identified;
            stored =
                ap (λ v. v.reset_tokens.docs) same
                ∙ replace_for_user-ok x.reset_tokens _ id _ _ w.reset_tokens
                    (relabel-eq-ok _ _ wrote);
            sent = ap (λ v. v.emails) same;
          },
        )

  IsAnswered-moved :
      (found account : Option User) {tokens : Store ResetToken} {emails : List Email} (v w : World)
      → found ≡ account
      → w ≡ v
      → IsAnswered found tokens emails v
      → IsAnswered account tokens emails w
  IsAnswered-moved found account {tokens} {emails} v w h k a =
      subst (λ w. IsAnswered account tokens emails w) (sym k)
        (subst (λ f. IsAnswered f tokens emails v) h a)

  abbrev pub account_of : ForgotRequest → World → Option User
  account_of request w =
      Option.map loaded
        (find (has_email (normalize_email x.unicode.to_lowercase request.email)) w.users.docs)

  -- A request to reset a password answers the same text whether or not there is an account of that
  -- email. Without one it stores and sends nothing; with one the account has the new token and no
  -- other, and one email is sent, to the account's address.
  pub forgot-IsAnswered :
      (w : World) (payload : Result JsonRejection ForgotRequest) (answer : String)
      → (forgot x state ambient payload w).0 ≡ ok answer
      → (request : ForgotRequest) × (payload ≡ ok request)
        × (answer ≡ "Si un compte existe pour cet email, un lien de réinitialisation a été envoyé.")
        × IsAnswered
            (account_of request w)
            w.reset_tokens
            w.emails
            (forgot x state ambient payload w).1
  unfolding forgot enforce_forgot
  forgot-IsAnswered w payload answer e = invert_run _ _ _ e λ request accepts r₁ e₁.
      invert_run _ _ _ e₁ λ _ _ r₂ e₂. invert_run _ _ _ e₂ λ found read r₃ e₃.
        invert_run _ _ _ e₃ λ _ offers r₄ e₄.
          let same = ap (λ r. r.1) (r₁ ∙ r₂ ∙ r₃ ∙ r₄) in
          let account = find_by_email-ok x.users _ _ _ found (relabel-eq-ok _ _ read) in
          (
            request,
            (accepted-eq-ok x.iterate _ _ request accepts).0,
            sym (ok_injective _ _ _ refl e₄),
            IsAnswered-moved found (account_of request w) _ _ account same
                (offer_reset-IsAnswered found _ offers),
          )
