-- ===== src/Service/History/Spent.antt =====
-- The tokens over every history: no two have one hash, and one that is spent stays spent.
use ch_api_authenticator.Repository.OneUse.{find-can_use, spent-use}
use ch_api_authenticator.Repository.OneUse.{
  shares_hash-sym, spent-append, spent-remove_all, spent-spend_all, spent-spend_first,
  unique-remove_all, unique-spend_all, unique-spend_first,
}
use ch_api_authenticator.Mongo.Unique.{conflict_free-append}
use ch_api_authenticator.Repository.ResetTokens.{ResetToken, use_up}
use ch_api_authenticator.Service.Policy.{RefreshTokensWrite, ResetTokensWrite}
use ch_api_authenticator.Repository.RefreshTokens.{RefreshToken, revoke}
use ch_api_authenticator.Base.{List, String, refl, subst, sym}
use ch_api_authenticator.Service.History.Tokens.{
  AnyRequest, DrawsOther, RefreshKept, ResetKept, SpentRefresh, SpentReset, UniqueRefresh,
  UniqueReset, is_revoked, is_used, refresh_hash, reset_hash,
}
use ch_api_authenticator.State.{Ambient, AppState, Platform}
use ch_api_authenticator.Repository.OneUse
use ch_api_authenticator.Repository.RefreshTokens
use ch_api_authenticator.Repository.ResetTokens

module _ (x : Platform) (state : AppState) where
  UniqueRefresh-Write :
      (ambient : Ambient) (before after : List RefreshToken)
      → RefreshTokensWrite x state ambient before after
      → UniqueRefresh before
      → UniqueRefresh after
  UniqueRefresh-Write ambient before after (RefreshTokensWrite.keeps same) u =
      subst UniqueRefresh (sym same) u
  UniqueRefresh-Write ambient before after (RefreshTokensWrite.opens now user family ttl free wrote)
        u =
      subst UniqueRefresh (sym wrote) (
        conflict_free-append RefreshTokens.same_hash
          (OneUse.shares_hash-sym refresh_hash is_revoked revoke (λ t. refl) (λ t. refl)) _ before
          free u)
  UniqueRefresh-Write ambient before after (RefreshTokensWrite.consumes now h wrote) u =
      subst UniqueRefresh (sym wrote) (
        OneUse.unique-spend_first refresh_hash is_revoked revoke (λ t. refl) (λ t. refl) _ before u)
  UniqueRefresh-Write ambient before after (RefreshTokensWrite.revokes p wrote) u =
      subst UniqueRefresh (sym wrote)
        (OneUse.unique-spend_all refresh_hash is_revoked revoke (λ t. refl) (λ t. refl) p before u)

  pub UniqueRefresh-kept : RefreshKept x state AnyRequest UniqueRefresh
  UniqueRefresh-kept = record {
    by_write = λ ambient before after a write u. UniqueRefresh-Write ambient before after write u;
    by_removal = OneUse.unique-remove_all refresh_hash is_revoked revoke (λ t. refl) (λ t. refl);
  }

  SpentRefresh-Write :
      (h : String) (ambient : Ambient) (before after : List RefreshToken)
      → DrawsOther x h ambient
      → RefreshTokensWrite x state ambient before after
      → SpentRefresh h before
      → SpentRefresh h after
  SpentRefresh-Write h ambient before after a (RefreshTokensWrite.keeps same) s =
      subst (SpentRefresh h) (sym same) s
  SpentRefresh-Write h ambient before after a
        (RefreshTokensWrite.opens now user family ttl free wrote) s =
      subst (SpentRefresh h) (sym wrote)
        (OneUse.spent-append refresh_hash is_revoked revoke (λ t. refl) (λ t. refl) h before _ a s)
  SpentRefresh-Write h ambient before after a (RefreshTokensWrite.consumes now g wrote) s =
      subst (SpentRefresh h) (sym wrote) (
        OneUse.spent-spend_first refresh_hash is_revoked revoke (λ t. refl) (λ t. refl) h _ before
          s)
  SpentRefresh-Write h ambient before after a (RefreshTokensWrite.revokes p wrote) s =
      subst (SpentRefresh h) (sym wrote)
        (OneUse.spent-spend_all refresh_hash is_revoked revoke (λ t. refl) (λ t. refl) h p before s)

  pub SpentRefresh-kept : (h : String) → RefreshKept x state (DrawsOther x h) (SpentRefresh h)
  SpentRefresh-kept h = record {
    by_write = SpentRefresh-Write h;
    by_removal = OneUse.spent-remove_all refresh_hash is_revoked revoke (λ t. refl) (λ t. refl) h;
  }

  UniqueReset-Write :
      (ambient : Ambient) (before after : List ResetToken)
      → ResetTokensWrite x state ambient before after
      → UniqueReset before
      → UniqueReset after
  UniqueReset-Write ambient before after (ResetTokensWrite.keeps same) u =
      subst UniqueReset (sym same) u
  UniqueReset-Write ambient before after (ResetTokensWrite.offers now user ttl free wrote) u =
      subst UniqueReset (sym wrote) (
        conflict_free-append ResetTokens.same_hash
          (OneUse.shares_hash-sym reset_hash is_used use_up (λ t. refl) (λ t. refl)) _ before free
          u)
  UniqueReset-Write ambient before after (ResetTokensWrite.uses now h wrote) u =
      subst UniqueReset (sym wrote)
        (OneUse.unique-spend_first reset_hash is_used use_up (λ t. refl) (λ t. refl) _ before u)
  UniqueReset-Write ambient before after (ResetTokensWrite.clears p wrote) u =
      subst UniqueReset (sym wrote)
        (OneUse.unique-remove_all reset_hash is_used use_up (λ t. refl) (λ t. refl) p before u)

  pub UniqueReset-kept : ResetKept x state AnyRequest UniqueReset
  UniqueReset-kept = record {
    by_write = λ ambient before after a write u. UniqueReset-Write ambient before after write u;
    by_removal = OneUse.unique-remove_all reset_hash is_used use_up (λ t. refl) (λ t. refl);
  }

  SpentReset-Write :
      (h : String) (ambient : Ambient) (before after : List ResetToken)
      → DrawsOther x h ambient
      → ResetTokensWrite x state ambient before after
      → SpentReset h before
      → SpentReset h after
  SpentReset-Write h ambient before after a (ResetTokensWrite.keeps same) s =
      subst (SpentReset h) (sym same) s
  SpentReset-Write h ambient before after a (ResetTokensWrite.offers now user ttl free wrote) s =
      subst (SpentReset h) (sym wrote)
        (OneUse.spent-append reset_hash is_used use_up (λ t. refl) (λ t. refl) h before _ a s)
  SpentReset-Write h ambient before after a (ResetTokensWrite.uses now g wrote) s =
      subst (SpentReset h) (sym wrote)
        (OneUse.spent-spend_first reset_hash is_used use_up (λ t. refl) (λ t. refl) h _ before s)
  SpentReset-Write h ambient before after a (ResetTokensWrite.clears p wrote) s =
      subst (SpentReset h) (sym wrote)
        (OneUse.spent-remove_all reset_hash is_used use_up (λ t. refl) (λ t. refl) h p before s)

  pub SpentReset-kept : (h : String) → ResetKept x state (DrawsOther x h) (SpentReset h)
  SpentReset-kept h = record {
    by_write = SpentReset-Write h;
    by_removal = OneUse.spent-remove_all reset_hash is_used use_up (λ t. refl) (λ t. refl) h;
  }
