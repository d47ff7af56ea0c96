-- ===== src/Prelude/Text.antt =====
-- Python's text operations, as far as the program uses them. A text is a list of code points;
-- `lower` folds the ASCII letters, and `strip` removes all the characters that Python's does.
use Prim.Native.Nat.{ℕ, zero, suc, ◌/◌, ◌%◌}
use Prim.Native.Char.{Char, code}
use Prim.Native.String.{String, [], ◌∷◌, ◌++◌}
use mathlib.Core.Path.{◌≡◌, refl}
use mathlib.Core.Bool.{Bool, true, false, not, ◌&&◌, ◌||◌}
use mathlib.Core.Option.{Option, none, some}
use mathlib.Core.List.{List}
use native.Mathlib.Omega.{arith}
use text.Mathlib.Text.{◌==◌}
use text.Mathlib.TextEquality.{eq_iff}
use text.Mathlib.TextLemmas.{cons-append}
use mathlib.Core.Logic.{inl, inr}
use saas_ntier_lab.Prelude.Tests.{leb, eqb, if◌then◌else◌, Bool-cases}

abbrev pub all_chars : (ℕ → Bool) → String → Bool
all_chars p [] = true
all_chars p (c ∷ s) = p (code c) && all_chars p s

-- `str.isspace` of one character
unfoldable pub is_space : ℕ → Bool
is_space c =
    (leb 9 c && leb c 13)
    || (leb 28 c && leb c 32)
    || eqb c 133
    || eqb c 160
    || eqb c 5760
    || (leb 8192 c && leb c 8202)
    || eqb c 8232
    || eqb c 8233
    || eqb c 8239
    || eqb c 8287
    || eqb c 12288

lstrip : String → String
lstrip [] = []
lstrip (c ∷ s) = let rest = lstrip s in if is_space (code c) then rest else c ∷ s

rstrip : String → String
rstrip [] = []
rstrip (c ∷ s) = let rest = rstrip s in if is_space (code c) && rest == "" then [] else c ∷ rest

-- `s.strip()`
unfoldable pub strip : String → String
unfolding lstrip rstrip is_space
strip s = rstrip (lstrip s)

-- `dst[i]` at the place `i` of `c` in `src`, or `c` itself
translate : String → String → Char → Char
translate (a ∷ src) (b ∷ dst) c = if eqb (code a) (code c) then b else translate src dst c
translate _ _ c = c

-- `s.lower()`
unfoldable pub lower : String → String
unfolding translate
lower [] = []
lower (c ∷ s) = translate "ABCDEFGHIJKLMNOPQRSTUVWXYZ" "abcdefghijklmnopqrstuvwxyz" c ∷ lower s

-- `s.startswith(t)`
unfoldable pub starts_with : String → String → Bool
starts_with s [] = true
starts_with [] (d ∷ t) = false
starts_with (c ∷ s) (d ∷ t) = eqb (code c) (code d) && starts_with s t

-- `s[n:]`
unfoldable pub drop : ℕ → String → String
drop zero s = s
drop (suc n) [] = []
drop (suc n) (c ∷ s) = drop n s

-- `t in s`
unfoldable pub has_part : String → String → Bool
unfolding starts_with
has_part [] t = t == ""
has_part (c ∷ s) t = starts_with (c ∷ s) t || has_part s t

-- `sep.join(parts)`
unfoldable pub join : String → List String → String
join sep List.[] = ""
join sep (List.◌∷◌ p List.[]) = p
join sep (List.◌∷◌ p (List.◌∷◌ q ps)) = p ++ sep ++ join sep (List.◌∷◌ q ps)

-- Python's truth of an optional text: neither `None` nor empty
abbrev pub truthy : Option String → Bool
truthy none = false
truthy (some s) = not (s == "")

-- `value or default`
abbrev pub or_else : Option String → String → String
or_else none d = d
or_else (some s) d = if s == "" then d else s

-- `repr(s)` of a text with nothing to escape
abbrev pub repr : String → String
repr s = "'" ++ s ++ "'"

abbrev reprs : List String → List String
reprs List.[] = List.[]
reprs (List.◌∷◌ s ss) = List.◌∷◌ (repr s) (reprs ss)

-- `str(xs)` of a list of such texts
unfoldable pub repr_list : List String → String
unfolding join
repr_list ss = "[" ++ join ", " (reprs ss) ++ "]"

-- `s.rstrip("/")`
unfoldable pub rstrip_slash : String → String
rstrip_slash [] = []
rstrip_slash (c ∷ s) =
    let rest = rstrip_slash s in if eqb (code c) b'/' && rest == "" then [] else c ∷ rest

abbrev pub codes : String → List ℕ
codes [] = List.[]
codes (c ∷ s) = List.◌∷◌ (code c) (codes s)

digit : ℕ → String
digit n =
    if eqb n 0
    then "0"
    else if eqb n 1
    then "1"
    else if eqb n 2
    then "2"
    else if eqb n 3
    then "3"
    else if eqb n 4
    then "4"
    else if eqb n 5
    then "5"
    else if eqb n 6
    then "6"
    else if eqb n 7
    then "7"
    else if eqb n 8
    then "8"
    else "9"

digits_of : ℕ → ℕ → String → String
digits_of zero n rest = rest
digits_of (suc f) n rest =
    let longer = digits_of f (n / 10) (digit (n % 10) ++ rest) in
    if eqb (n / 10) 0 then digit (n % 10) ++ rest else longer

-- `str(n)`; a number has no more digits than its successor
unfoldable pub show_nat : ℕ → String
unfolding digits_of digit
show_nat n = digits_of (suc n) n ""

strip_runs : strip "  a b \t" ≡ "a b"
unfolding strip
strip_runs = refl

lower_runs : lower "LocalHost" ≡ "localhost"
unfolding lower
lower_runs = refl

show_nat_runs : show_nat 1203 ≡ "1203"
unfolding show_nat
show_nat_runs = refl

starts_with-append : (t s : String) → starts_with (t ++ s) t ≡ true
unfolding starts_with
starts_with-append [] s = refl
starts_with-append (c ∷ t) s = rw cons-append (ground (arith, starts_with-append t s))

abbrev pub NoSpace : String → Type 0
NoSpace [] = Unit
NoSpace (c ∷ s) = (is_space (code c) ≡ false) × NoSpace s

lstrip_of_NoSpace : (s : String) → NoSpace s → lstrip s ≡ s
unfolding lstrip
lstrip_of_NoSpace [] h = refl
lstrip_of_NoSpace (c ∷ s) h = rw h.0

rstrip_of_NoSpace : (s : String) → NoSpace s → rstrip s ≡ s
unfolding rstrip
rstrip_of_NoSpace [] h = refl
rstrip_of_NoSpace (c ∷ s) h = rw (h.0, rstrip_of_NoSpace s h.1)

-- A text with no space is not changed by trimming.
pub strip_of_NoSpace : (s : String) → NoSpace s → strip s ≡ s
unfolding strip
strip_of_NoSpace s h = rw (lstrip_of_NoSpace s h) (rstrip_of_NoSpace s h)

-- A text with no capital letter is not changed by `lower`.
abbrev pub NoUpper : String → Type 0
NoUpper [] = Unit
NoUpper (c ∷ s) = ((leb b'A' (code c) && leb (code c) b'Z') ≡ false) × NoUpper s

translate_of_NoUpper :
    (c : Char)
    → (leb b'A' (code c) && leb (code c) b'Z') ≡ false
    → translate "ABCDEFGHIJKLMNOPQRSTUVWXYZ" "abcdefghijklmnopqrstuvwxyz" c ≡ c
unfolding translate
translate_of_NoUpper c h = ground arith

pub lower_of_NoUpper : (s : String) → NoUpper s → lower s ≡ s
unfolding lower
lower_of_NoUpper [] h = refl
lower_of_NoUpper (c ∷ s) h = cc (translate_of_NoUpper c h.0, lower_of_NoUpper s h.1)

pub or_else-empty : (s : String) → or_else (some s) "" ≡ s
or_else-empty s = ground (arith, eq_iff s "")

rstrip-rstrip : (s : String) → rstrip (rstrip s) ≡ rstrip s
unfolding rstrip
rstrip-rstrip [] = refl
rstrip-rstrip (c ∷ s) = elim (Bool-cases (is_space (code c) && rstrip s == "")) [
  | inl t ↦ rw t refl
  | inr f ↦ rw f (rw (rstrip-rstrip s) (rw f))
]

-- What `lstrip` leaves does not begin with white space, so nor does its beginning.
lstrip-rstrip : (s : String) → lstrip (rstrip (lstrip s)) ≡ rstrip (lstrip s)
unfolding rstrip lstrip
lstrip-rstrip [] = refl
lstrip-rstrip (c ∷ s) = elim (Bool-cases (is_space (code c))) [
  | inl t ↦ rw t (lstrip-rstrip s)
  | inr f ↦ ground arith
]

pub strip-strip : (s : String) → strip (strip s) ≡ strip s
unfolding strip
strip-strip s = rw (lstrip-rstrip s) (rstrip-rstrip (lstrip s))
