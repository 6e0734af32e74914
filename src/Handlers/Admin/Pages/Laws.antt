-- ===== src/Handlers/Admin/Pages/Laws.antt =====
-- Which accounts a page skips.
use ch_api_authenticator.Base.{refl}
use ch_api_authenticator.Base.{ap, inl, inr, sym, ◌∙◌}
use ch_api_authenticator.Handlers.Admin.Pages.{limit_of}
use ch_api_authenticator.Handlers.Admin.Pages.{clamp_limit, page_of}
use ch_api_authenticator.Repository.Dates.{wrap64}
use ch_api_authenticator.Handlers.Admin.Pages.{paginate, parse_status}
use ch_api_authenticator.Exec.{ok}
use ch_api_authenticator.Base.Integers.{negsuc, pos, ℤ}
use ch_api_authenticator.Base.{
  Option, String, arith, eq_iff, none, some, ℕ, ◌*◌, ◌-◌, ◌<◌, ◌^◌, ◌↔◌, ◌≡◌, ◌≤◌, ◌⊎◌,
}
use ch_api_authenticator.Domain.User.{AccountStatus, active, disabled, pending_validation}

page_of_ge : (page : Option ℕ) → 1 ≤ page_of page
page_of_ge none = ground arith
page_of_ge (some page) = ground arith

-- What is left of a limit that was asked for: it is brought between one and a hundred.
abbrev pub IsBrought : ℤ → ℕ → Type 0
IsBrought (negsuc n) limit = limit ≡ 1
IsBrought (pos n) limit =
    ((n ≡ 0) × (limit ≡ 1)) ⊎ ((1 ≤ n) × (n ≤ 100) × (limit ≡ n)) ⊎ ((100 < n) × (limit ≡ 100))

-- Twenty where none is asked for.
abbrev pub IsLimit : Option ℤ → ℕ → Type 0
IsLimit none limit = limit ≡ 20
IsLimit (some asked) limit = IsBrought asked limit

clamp_limit-IsBrought : (asked : ℤ) → IsBrought asked (clamp_limit asked)
clamp_limit-IsBrought (pos n) = ground arith
clamp_limit-IsBrought (negsuc n) = refl

pub limit_of-IsLimit : (asked : Option ℤ) → IsLimit asked (limit_of asked)
limit_of-IsLimit none = refl
limit_of-IsLimit (some asked) = clamp_limit-IsBrought asked

pub limit_of_ge : (asked : Option ℤ) → 1 ≤ limit_of asked
limit_of_ge none = ground arith
limit_of_ge (some (pos n)) = ground arith
limit_of_ge (some (negsuc n)) = ground arith

-- The first page where none is asked for, or page zero.
abbrev pub IsPage : Option ℕ → ℕ → Type 0
IsPage none page = page ≡ 1
IsPage (some asked) page = ((asked ≡ 0) × (page ≡ 1)) ⊎ ((1 ≤ asked) × (page ≡ asked))

pub page_of-IsPage : (asked : Option ℕ) → IsPage asked (page_of asked)
page_of-IsPage none = refl
page_of-IsPage (some asked) = ground arith

wrap64_lem : (n : ℕ) → n < 2 ^ 64 → wrap64 n ≡ n
wrap64_lem n h = ground arith

-- The limit of a page is twenty where none is asked for, and otherwise the one that is asked for,
-- brought between one and a hundred; the page is the one that is asked for, or the first; and the
-- number of accounts that is skipped is that of the pages before it, given that it is less than
-- 2 ^ 64.
pub paginate_bounds :
    (page : Option ℕ) (limit : Option ℤ)
    → ((paginate page limit).page - 1) * (paginate page limit).limit < 2 ^ 64
    → IsPage page (paginate page limit).page
      × IsLimit limit (paginate page limit).limit
      × ((paginate page limit).skip
          ≡ ((paginate page limit).page - 1) * (paginate page limit).limit)
unfolding paginate
paginate_bounds page limit h = (page_of-IsPage page, limit_of-IsLimit limit, wrap64_lem _ h)

-- The texts that name a status are these, and no other.
pub parse_status_iff :
    (raw : String) (status : AccountStatus)
    → (parse_status raw ≡ ok status) ↔ (
        ((raw ≡ "active") × (status ≡ active))
        ⊎ ((raw ≡ "disabled") × (status ≡ disabled))
        ⊎ ((raw ≡ "pending_validation") × (status ≡ pending_validation))
        ⊎ ((raw ≡ "pending") × (status ≡ pending_validation)))
unfolding parse_status
parse_status_iff raw status = (
  λ e. ground (
    arith,
    eq_iff raw "active",
    eq_iff raw "disabled",
    eq_iff raw "pending_validation",
    eq_iff raw "pending",
  ),
  λ h. elim h [
    | inl (t, s) ↦ ap parse_status t ∙ ap ok (sym s)
    | inr (inl (t, s)) ↦ ap parse_status t ∙ ap ok (sym s)
    | inr (inr (inl (t, s))) ↦ ap parse_status t ∙ ap ok (sym s)
    | inr (inr (inr (t, s))) ↦ ap parse_status t ∙ ap ok (sym s)
  ],
)
