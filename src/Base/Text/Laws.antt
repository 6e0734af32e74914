-- ===== src/Base/Text/Laws.antt =====
-- Trimming and splitting of texts that hold no white space or none of the separators.
use Prim.Native.Nat.{ℕ}
use Prim.Native.Char.{Char, code}
use Prim.Native.String.{String, ◌++◌}
use mathlib.Core.Path.{◌≡◌, refl}
use mathlib.Core.Logic.{◌≢◌}
use mathlib.Core.Bool.{false}
use mathlib.Core.Option.{some}
use mathlib.Core.List.{[], ◌∷◌}
use native.Mathlib.Omega.{arith}
use text.Mathlib.TextLemmas.{nil-append, cons-append}
use ch_api_authenticator.Base.Text.{
  is_space, trim_start, trim_cons, trim_end, trim, split, split_once,
}

-- No character of the text is white space.
abbrev pub NoSpace : String → Type 0
NoSpace String.[] = Unit
NoSpace (String.◌∷◌ c s) = (is_space (code c) ≡ false) × NoSpace s

-- The text does not hold the character.
abbrev pub Free : ℕ → String → Type 0
Free d String.[] = Unit
Free d (String.◌∷◌ c s) = (code c ≢ d) × Free d s

trim_start-NoSpace : (s : String) → NoSpace s → trim_start s ≡ s
unfolding trim_start
trim_start-NoSpace String.[] h = refl
trim_start-NoSpace (String.◌∷◌ c s) h = rw h.0

trim_end-NoSpace : (s : String) → NoSpace s → trim_end s ≡ s
unfolding trim_end trim_cons
trim_end-NoSpace String.[] h = refl
trim_end-NoSpace (String.◌∷◌ c s) h = rw (h.0, trim_end-NoSpace s h.1)

pub trim-NoSpace : (s : String) → NoSpace s → trim s ≡ s
unfolding trim
trim-NoSpace s h = rw (trim_start-NoSpace s h) (trim_end-NoSpace s h)

pub split-Free : (d : ℕ) (s : String) → Free d s → split d s ≡ s ∷ []
unfolding split
split-Free d String.[] h = refl
split-Free d (String.◌∷◌ c s) h = ground (arith, split-Free d s h.1)

pub NoSpace-append : (s t : String) → NoSpace s → NoSpace t → NoSpace (s ++ t)
NoSpace-append String.[] t hs ht = rw nil-append ht
NoSpace-append (String.◌∷◌ c s) t hs ht = rw cons-append (hs.0, NoSpace-append s t hs.1 ht)

pub Free-append : (d : ℕ) (s t : String) → Free d s → Free d t → Free d (s ++ t)
Free-append d String.[] t hs ht = rw nil-append ht
Free-append d (String.◌∷◌ c s) t hs ht = rw cons-append (hs.0, Free-append d s t hs.1 ht)

pub split-append :
    (d : ℕ) (s : String) (c : Char) (t : String)
    → Free d s
    → code c ≡ d
    → split d (s ++ String.◌∷◌ c t) ≡ s ∷ split d t
unfolding split
split-append d String.[] c t h e = rw nil-append (ground arith)
split-append d (String.◌∷◌ b s) c t h e =
    rw cons-append (ground (arith, split-append d s c t h.1 e))

pub split_once-append :
    (d : ℕ) (s : String) (c : Char) (t : String)
    → Free d s
    → code c ≡ d
    → split_once d (s ++ String.◌∷◌ c t) ≡ some (s, t)
unfolding split_once
split_once-append d String.[] c t h e = rw nil-append (ground arith)
split_once-append d (String.◌∷◌ b s) c t h e =
    rw cons-append (ground (arith, split_once-append d s c t h.1 e))
