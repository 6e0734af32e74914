-- ===== src/Exec/Laws.antt =====
-- What a chain of fallible steps did, from its result.
use ch_api_authenticator.Base.{◌≢◌}
use ch_api_authenticator.Base.{not}
use ch_api_authenticator.Exec.{guard}
use ch_api_authenticator.Base.{Bool, ap, false, true}
use ch_api_authenticator.Base.{◌≡◌, refl, ◌⊎◌, inl, inr, Option, none, some}
use ch_api_authenticator.Exec.{Result, ok, err, Exec, continue, ◌>>=◌, relabel, ok_or}
use ch_api_authenticator.Base.{arith}

pub Result-cases {ℓ} :
    {E A : Type ℓ} (r : Result E A) → ((a : A) × (r ≡ ok a)) ⊎ ((e : E) × (r ≡ err e))
Result-cases (ok a) = inl (a, refl)
Result-cases (err e) = inr (e, refl)

continue-eq-ok :
    {S E A B : Type 0} (r : Result E A) (f : A → Exec S E B) (s : S) {b : B}
    → (continue r f s).0 ≡ ok b
    → (a : A) × (r ≡ ok a) × ((f a s).0 ≡ ok b)
continue-eq-ok (ok a) f s h = (a, refl, h)
continue-eq-ok (err e) f s h = cc

-- A block that succeeds ran its first step with success, and the rest from where that led.
pub bind-eq-ok :
    {S E A B : Type 0} (m : Exec S E A) (f : A → Exec S E B) (s : S) {b : B}
    → ((m >>= f) s).0 ≡ ok b
    → (a : A) × ((m s).0 ≡ ok a) × ((f a (m s).1).0 ≡ ok b)
unfolding ◌>>=◌
bind-eq-ok m f s h = continue-eq-ok (m s).0 f (m s).1 h

-- The same, handed on: `invert _ _ _ e λ a first rest. …` names the first step's result.
pub invert {ℓ} :
    {S E A B : Type 0} {C : Type ℓ} (m : Exec S E A) (f : A → Exec S E B) (s : S) {b : B}
    → ((m >>= f) s).0 ≡ ok b
    → ((a : A) → (m s).0 ≡ ok a → (f a (m s).1).0 ≡ ok b → C)
    → C
invert m f s h k = let (a, first, rest) = bind-eq-ok m f s h in k a first rest

continue-run :
    {S E A B : Type 0} (r : Result E A) (f : A → Exec S E B) (s : S) (a : A)
    → r ≡ ok a
    → continue r f s ≡ f a s
continue-run r f s a h = ap (λ r. continue r f s) h

-- The other way round: a first step that succeeds leaves the rest to run.
pub bind-run :
    {S E A B : Type 0} (m : Exec S E A) (f : A → Exec S E B) (s : S) {a : A}
    → (m s).0 ≡ ok a
    → (m >>= f) s ≡ f a (m s).1
unfolding ◌>>=◌
bind-run m f s {a} h = continue-run (m s).0 f (m s).1 a h

-- The same with the run itself, for what the block wrote: what it ran is what follows its first step.
pub invert_run {ℓ} :
    {S E A B : Type 0} {C : Type ℓ} (m : Exec S E A) (f : A → Exec S E B) (s : S) {b : B}
    → ((m >>= f) s).0 ≡ ok b
    → ((a : A) → (m s).0 ≡ ok a → ((m >>= f) s ≡ f a (m s).1) → (f a (m s).1).0 ≡ ok b → C)
    → C
unfolding ◌>>=◌
invert_run m f s h k =
    let (a, first, rest) = bind-eq-ok m f s h in
    k a first (continue-run (m s).0 f (m s).1 a first) rest

pub ok_injective : {E A : Type 0} (r : Result E A) (a b : A) → r ≡ ok a → r ≡ ok b → a ≡ b
ok_injective r a b h k = cc

pub not-eq-true : (test : Bool) → not test ≡ true → test ≡ false
not-eq-true true h = cc
not-eq-true false h = refl

pub guard-eq-ok : {E : Type 0} (test : Bool) (e : E) → guard test e ≡ ok tt → test ≡ true
guard-eq-ok true e h = refl
guard-eq-ok false e h = cc

pub relabel-eq-ok :
    {E F A : Type 0} (f : E → F) (r : Result E A) {a : A} → relabel f r ≡ ok a → r ≡ ok a
relabel-eq-ok f (ok a) h = ground arith
relabel-eq-ok f (err e) h = cc

pub ok_or-eq-ok : {E A : Type 0} (o : Option A) (e : E) {a : A} → ok_or o e ≡ ok a → o ≡ some a
ok_or-eq-ok none e h = cc
ok_or-eq-ok (some a) e h = ground arith

pub some_injective {ℓ} : {A : Type ℓ} (a b : A) → some a ≡ some b → a ≡ b
some_injective a b h = cc

pub none-ne-some {ℓ} : {A : Type ℓ} {a : A} → none ≢ some a
none-ne-some h = cc
