-- ===== src/Base/Text.antt =====
-- The methods of Rust's `str` that the program calls, over code points: `trim`, `is_empty`,
-- `split(char)`, `split_once(char)`, `strip_prefix`, and the decimal print of an integer.
pub mod Laws
use Prim.Native.Nat.{ℕ, zero, suc, ◌+◌, ◌-◌, ◌*◌, ◌/◌, ◌%◌}
use Prim.Native.Char.{Char, code}
use Prim.Native.String
use Prim.Native.String.{String, ◌++◌}
use mathlib.Core.Bool.{Bool, true, false, ◌&&◌, ◌||◌}
use mathlib.Core.Option
use mathlib.Core.Option.{Option, none, some}
use mathlib.Core.List.{List, [], ◌∷◌}
use ch_api_authenticator.Base.Tests.{ltb, leb, eqb, if◌then◌else◌}

-- `char::is_whitespace`: the Unicode property White_Space.
unfoldable pub is_space : ℕ → Bool
is_space c =
    (leb 9 c && leb c 13)
    || eqb c 32
    || eqb c 0x85
    || eqb c 0xa0
    || eqb c 0x1680
    || (leb 0x2000 c && leb c 0x200a)
    || eqb c 0x2028
    || eqb c 0x2029
    || eqb c 0x202f
    || eqb c 0x205f
    || eqb c 0x3000

abbrev pub is_empty : String → Bool
is_empty String.[] = true
is_empty (String.◌∷◌ c s) = false

unfoldable pub trim_start : String → String
trim_start String.[] = ""
trim_start (String.◌∷◌ c s) =
    let rest = trim_start s in if is_space (code c) then rest else String.◌∷◌ c s

trim_cons : Char → String → String
trim_cons c rest = if is_space (code c) && is_empty rest then "" else String.◌∷◌ c rest

unfoldable pub trim_end : String → String
unfolding trim_cons
trim_end String.[] = ""
trim_end (String.◌∷◌ c s) = trim_cons c (trim_end s)

unfoldable pub trim : String → String
unfolding is_space trim_start trim_end
trim s = trim_end (trim_start s)

-- A character in front of the first piece.
abbrev pub push_first : Char → List String → List String
push_first c [] = []
push_first c (piece ∷ pieces) = String.◌∷◌ c piece ∷ pieces

-- `split(d)`: the empty text is one empty piece.
unfoldable pub split : ℕ → String → List String
split d String.[] = "" ∷ []
split d (String.◌∷◌ c s) =
    let pieces = split d s in if eqb (code c) d then "" ∷ pieces else push_first c pieces

abbrev push_left : Char → String × String → String × String
push_left c (left, right) = (String.◌∷◌ c left, right)

-- `split_once(d)`: at the first occurrence.
unfoldable pub split_once : ℕ → String → Option (String × String)
split_once d String.[] = none
split_once d (String.◌∷◌ c s) =
    let rest = split_once d s in
    if eqb (code c) d then some ("", s) else Option.map (push_left c) rest

unfoldable pub strip_prefix : String → String → Option String
strip_prefix String.[] s = some s
strip_prefix (String.◌∷◌ p ps) String.[] = none
strip_prefix (String.◌∷◌ p ps) (String.◌∷◌ c s) =
    let rest = strip_prefix ps s in if eqb (code p) (code c) then rest else none

-- `iter().find_map(f)`
abbrev pub find_map {ℓ κ} : {A : Type ℓ} {B : Type κ} → (A → Option B) → List A → Option B
find_map f [] = none
find_map f (x ∷ xs) = elim (f x) [ some b ↦ some b | none ↦ find_map f xs ]

-- `iter().collect::<Vec<_>>().join(sep)`
unfoldable pub join : String → List String → String
join sep [] = ""
join sep (x ∷ []) = x
join sep (x ∷ y ∷ xs) = x ++ sep ++ join sep (y ∷ xs)

digit : ℕ → String
digit n =
    if eqb n 0
    then "0"
    else if eqb n 1
    then "1"
    else if eqb n 2
    then "2"
    else if eqb n 3
    then "3"
    else if eqb n 4
    then "4"
    else if eqb n 5
    then "5"
    else if eqb n 6
    then "6"
    else if eqb n 7
    then "7"
    else if eqb n 8
    then "8"
    else "9"

-- The digits in front of `acc`; a number has fewer digits than its successor counts rounds.
decimal_from : ℕ → ℕ → String → String
decimal_from zero n acc = acc
decimal_from (suc fuel) n acc =
    let more = decimal_from fuel (n / 10) (digit (n % 10) ++ acc) in
    if ltb n 10 then digit n ++ acc else more

-- `to_string()` of an unsigned integer.
unfoldable pub decimal : ℕ → String
unfolding decimal_from digit
decimal n = decimal_from (suc n) n ""

abbrev is_digit : ℕ → Bool
is_digit c = leb b'0' c && leb c b'9'

-- The value of the digits behind those read, up to a greatest number.
unfoldable pub digits_value : ℕ → ℕ → String → Option ℕ
digits_value most acc String.[] = some acc
digits_value most acc (String.◌∷◌ c s) =
    let next = acc * 10 + (code c - b'0') in
    let rest = digits_value most next s in if is_digit (code c) && leb next most then rest else none

abbrev unsigned : ℕ → String → Option ℕ
unsigned most String.[] = none
unsigned most (String.◌∷◌ c s) = digits_value most 0 (String.◌∷◌ c s)

-- `parse::<u16>()` and its like, up to the type's greatest number: digits, behind a "+" if there is
-- one.
unfoldable pub parse_uint : ℕ → String → Option ℕ
unfolding digits_value
parse_uint most String.[] = none
parse_uint most (String.◌∷◌ c s) =
    if eqb (code c) b'+' then unsigned most s else unsigned most (String.◌∷◌ c s)
