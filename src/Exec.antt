-- ===== src/Exec.antt =====
-- Code that reads and writes shared state and may fail, as the async functions of the program do:
-- what was written before an error stays written.
pub mod Laws
pub mod Keeps
use ch_api_authenticator.Base.{Bool, true, false, Option, none, some}

pub data Result {ℓ} (E A : Type ℓ) : Type ℓ where
  ok : A → Result E A
  err : E → Result E A

abbrev pub Exec : Type 0 → Type 0 → Type 0 → Type 0
Exec S E A = S → Result E A × S

abbrev pub continue : {S E A B : Type 0} → Result E A → (A → Exec S E B) → Exec S E B
continue (ok a) f s = f a s
continue (err e) f s = (err e, s)

infixl 5 ◌>>=◌ ◌>>◌
unfoldable pub ◌>>=◌ : {S E A B : Type 0} → Exec S E A → (A → Exec S E B) → Exec S E B
◌>>=◌ m f s = continue (m s).0 f (m s).1

abbrev pub ◌>>◌ : {S E A B : Type 0} → Exec S E A → Exec S E B → Exec S E B
m >> k = m >>= λ _. k

module _ {S E A : Type 0} where
  abbrev pub pure : A → Exec S E A
  pure a s = (ok a, s)

  abbrev pub raise : E → Exec S E A
  raise e s = (err e, s)

  abbrev pub lift : Result E A → Exec S E A
  lift r s = (r, s)

-- `option.ok_or(e)?`
abbrev pub ok_or {ℓ} : {E A : Type ℓ} → Option A → E → Result E A
ok_or none e = err e
ok_or (some a) e = ok a

-- `if !test { return Err(e) }`
abbrev pub guard : {E : Type 0} → Bool → E → Result E (Unit {0})
guard true e = ok tt
guard false e = err e

abbrev pub relabel : {E F A : Type 0} → (E → F) → Result E A → Result F A
relabel f (ok a) = ok a
relabel f (err e) = err (f e)

module _ {S E F A : Type 0} where
  -- `.map_err(f)?`
  abbrev pub map_err : (E → F) → Exec S E A → Exec S F A
  map_err f m s = (relabel f (m s).0, (m s).1)

  -- The result as a value, for code that matches on it or ignores it.
  abbrev pub attempt : Exec S E A → Exec S F (Result E A)
  attempt m s = (ok (m s).0, (m s).1)

-- `let Json(request) = payload?` and its like: a result of another error type.
abbrev pub lift_err : {S E F A : Type 0} → (E → F) → Result E A → Exec S F A
lift_err f r s = (relabel f r, s)
