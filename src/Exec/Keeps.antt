-- ===== src/Exec/Keeps.antt =====
-- Code with state that keeps a property of the state, whether it succeeds or fails.
use ch_api_authenticator.Base.{refl, ◌≡◌}
use ch_api_authenticator.Exec.{Exec, Result, continue, err, ok}
use ch_api_authenticator.Exec.{◌>>=◌}

module _ {S : Type 0} (P : S → Type 0) where
  abbrev pub Keeps : {E A : Type 0} → Exec S E A → Type 0
  Keeps m = (s : S) → P s → P (m s).1

  continue-keeps :
      {E A B : Type 0} (r : Result E A) (f : A → Exec S E B) (s : S)
      → P s
      → ((a : A) → r ≡ ok a → P (f a s).1)
      → P (continue r f s).1
  continue-keeps (ok a) f s held rest = rest a refl
  continue-keeps (err e) f s held rest = held

  -- The rest of a block is run on what its first step gave, if that succeeded.
  pub bind-Keeps :
      {E A B : Type 0} (m : Exec S E A) (f : A → Exec S E B)
      → Keeps m
      → ((a : A) (s : S) → (m s).0 ≡ ok a → Keeps (f a))
      → Keeps (m >>= f)
  unfolding ◌>>=◌
  bind-Keeps m f first rest s held =
      continue-keeps (m s).0 f (m s).1 (first s held) λ a e. rest a s e (m s).1 (first s held)

module _ {S E A B : Type 0} (Q : S → Type 0) where
  continue-both :
      (r : Result E A) (f : A → Exec S E B) (s : S)
      → ((e : E) → r ≡ err e → Q s)
      → ((a : A) → r ≡ ok a → Q (f a s).1)
      → Q (continue r f s).1
  continue-both (ok a) f s failed rest = rest a refl
  continue-both (err e) f s failed rest = failed e refl

  -- From one state, with what the first step showed.
  pub bind-both :
      (m : Exec S E A) (f : A → Exec S E B) (s : S)
      → ((e : E) → (m s).0 ≡ err e → Q (m s).1)
      → ((a : A) → (m s).0 ≡ ok a → Q (f a (m s).1).1)
      → Q ((m >>= f) s).1
  unfolding ◌>>=◌
  bind-both m f s failed rest = continue-both (m s).0 f (m s).1 failed rest
