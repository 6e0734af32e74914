-- ===== src/Handlers/Cookies/Laws.antt =====
-- A cookie header that a client writes, pairs joined by "; ", is read back.
use ch_api_authenticator.Base.{
  String, ◌++◌, ◌==◌, ◌≡◌, refl, ◌∙◌, ◌&&◌, not, Option, none, some, List, [], ◌∷◌, arith,
  if◌then◌else◌,
}
use ch_api_authenticator.Base.Lists.{All}
use ch_api_authenticator.Base.Text.{
  is_space, trim, split, split_once, find_map, is_empty, push_first,
}
use ch_api_authenticator.Base.Text.Laws.{
  NoSpace, Free, trim-NoSpace, split-Free, NoSpace-append, Free-append, split-append,
  split_once-append,
}
use ch_api_authenticator.Services.Net.{Headers}
use ch_api_authenticator.Handlers.Cookies.{pair_value, value_in, cookie_header, cookie_value}

-- A name and a value that can stand in a header: no white space, no ";", and no "=" in the name.
pub record IsCookie (pair : String × String) : Type 0 where
  pub name_space : NoSpace pair.0
  pub name_free : Free b';' pair.0
  pub name_plain : Free b'=' pair.0
  pub value_space : NoSpace pair.1
  pub value_free : Free b';' pair.1

abbrev pub show_pair : String × String → String
show_pair (name, value) = name ++ String.◌∷◌ "=" value

-- A client's header of its cookies.
pub render : List (String × String) → String
render [] = ""
render (pair ∷ []) = show_pair pair
render (pair ∷ next ∷ pairs) =
    show_pair pair ++ String.◌∷◌ ";" (String.◌∷◌ " " (render (next ∷ pairs)))

-- The first cookie of that name whose value is not empty.
pub first_value : String → List (String × String) → Option String
first_value name [] = none
first_value name ((key, value) ∷ pairs) =
    if key == name && not (is_empty value) then some value else first_value name pairs

show_pair-NoSpace : (pair : String × String) → IsCookie pair → NoSpace (show_pair pair)
unfolding is_space
show_pair-NoSpace (name, value) c =
    NoSpace-append name (String.◌∷◌ "=" value) c.name_space (refl, c.value_space)

show_pair-Free : (pair : String × String) → IsCookie pair → Free b';' (show_pair pair)
show_pair-Free (name, value) c =
    Free-append b';' name (String.◌∷◌ "=" value) c.name_free ((omega arith), c.value_free)

pair_value-show_pair :
    (wanted name value : String)
    → IsCookie (name, value)
    → pair_value wanted (show_pair (name, value))
      ≡ (if name == wanted && not (is_empty value) then some value else none)
unfolding pair_value
pair_value-show_pair wanted name value c = rw (
  trim-NoSpace (show_pair (name, value)) (show_pair-NoSpace (name, value) c),
  split_once-append b'=' name "=" value c.name_plain refl,
  trim-NoSpace value c.value_space,
)

pair_value_after_space :
    (wanted : String) (s : String) → pair_value wanted (String.◌∷◌ " " s) ≡ pair_value wanted s
unfolding pair_value trim
pair_value_after_space wanted s = refl

find_map-push_first :
    (wanted : String) (pieces : List String)
    → find_map (pair_value wanted) (push_first " " pieces) ≡ find_map (pair_value wanted) pieces
find_map-push_first wanted [] = refl
find_map-push_first wanted (piece ∷ pieces) = ground (arith, pair_value_after_space wanted piece)

split_after_space : (s : String) → split b';' (String.◌∷◌ " " s) ≡ push_first " " (split b';' s)
unfolding split
split_after_space s = refl

value_in-nil : (wanted : String) → value_in wanted "" ≡ none
unfolding value_in pair_value split split_once trim
value_in-nil wanted = refl

value_in-one : (wanted s : String) → Free b';' s → value_in wanted s ≡ pair_value wanted s
unfolding value_in
value_in-one wanted s h = rw (split-Free b';' s h) (ground arith)

value_in-more :
    (wanted s t : String)
    → Free b';' s
    → value_in wanted (s ++ String.◌∷◌ ";" (String.◌∷◌ " " t))
      ≡ elim (pair_value wanted s) [ some value ↦ some value | none ↦ value_in wanted t ]
unfolding value_in
value_in-more wanted s t h =
    rw (split-append b';' s ";" (String.◌∷◌ " " t) h refl, split_after_space t)
      (ground (arith, find_map-push_first wanted (split b';' t)))

value_in-render :
    (wanted : String) (pairs : List (String × String))
    → All IsCookie pairs
    → value_in wanted (render pairs) ≡ first_value wanted pairs
unfolding render first_value
value_in-render wanted [] h = value_in-nil wanted
value_in-render wanted ((name, value) ∷ []) (c, done) =
    value_in-one wanted (show_pair (name, value)) (show_pair-Free (name, value) c)
    ∙ pair_value-show_pair wanted name value c
value_in-render wanted ((name, value) ∷ next ∷ pairs) (c, h) = ground (
  arith,
  value_in-more wanted (show_pair (name, value)) (render (next ∷ pairs))
      (show_pair-Free (name, value) c),
  pair_value-show_pair wanted name value c,
  value_in-render wanted (next ∷ pairs) h,
)

-- From a header of any cookies, `cookie_value` reads the first value of the name that is not empty.
pub cookie_value-render :
    (headers : Headers) (wanted : String) (pairs : List (String × String))
    → All IsCookie pairs
    → headers cookie_header ≡ some (render pairs)
    → cookie_value headers wanted ≡ first_value wanted pairs
unfolding cookie_value
cookie_value-render headers wanted pairs h e = ground (arith, value_in-render wanted pairs h)
