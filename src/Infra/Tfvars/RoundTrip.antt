-- ===== src/Infra/Tfvars/RoundTrip.antt =====
-- Reading back what control-plane/infra.py writes in the brackets of `tenant_ids = [...]`.
use Prim.Native.String.{◌++◌ as ◌<>◌}
use text.Mathlib.TextLemmas.{cons-append, nil-append, append-nil, append_assoc, cons≢nil}
use saas_ntier_lab.Prelude.{
  suc, ◌+◌, ◌<◌, ◌≤◌, String, Char, code, codes, true, false, none, some, List, [], ◌∷◌, ◌≡◌, refl,
  ◌∙◌, ◌==◌, arith, length, eq_iff, Bool-cases, inl, inr, All, eqb, ltb, join,
}
use saas_ntier_lab.Ids.{is_lower_letter, is_id_char}
use saas_ntier_lab.Ids.Grammar.{IsTenantId}
use saas_ntier_lab.Infra.Tfvars.{
  one, next_state, emitted, parse_from, parse_ids, quoted, inner_text,
}

length-one : (a : String) (c : Char) → length (codes (a <> one c)) ≡ suc (length (codes a))
length-one String.[] c = rw nil-append refl
length-one (String.◌∷◌ b a) c = rw cons-append (ground (arith, length-one a c))

nonempty : (f : Char) (a : String) → (String.◌∷◌ f a == "") ≡ false
nonempty f a = elim (Bool-cases (String.◌∷◌ f a == "")) [
  | inl t ↦ absurd (cons≢nil ((eq_iff (String.◌∷◌ f a) "").0 t))
  | inr e ↦ e
]

id_next :
    (f c : Char) (a : String)
    → is_id_char (code c) ≡ true
    → length (codes a) < 15
    → (emitted (some (String.◌∷◌ f a)) c ≡ [])
      × (next_state (some (String.◌∷◌ f a)) c ≡ some (String.◌∷◌ f (a <> one c)))
id_next f c a h short =
    let not_quote : eqb (code c) b'"' ≡ false = ground arith in
    let few : ltb (suc (length (codes a))) 16 ≡ true = ground arith in
    rw (nonempty f a) (rw not_quote (rw h (rw few (refl, rw cons-append refl))))

scan :
    (f : Char) (a w rest : String)
    → All (λ c. is_id_char c ≡ true) (codes w)
    → length (codes a) + length (codes w) ≤ 15
    → parse_from (some (String.◌∷◌ f a)) (w <> ("\"" <> rest))
      ≡ String.◌∷◌ f (a <> w) ∷ parse_from none rest
unfolding parse_from
scan f a String.[] rest plain short =
    rw (nil-append ("\"" <> rest)) (
      rw (cons-append "\"" "" rest) (rw (nil-append rest) (rw (nonempty f a) (rw append-nil refl))))
scan f a (String.◌∷◌ c w) rest plain short =
    let (e, n) = id_next f c a plain.0 (ground arith) in
    let len = length-one a c in
    let ih = scan f (a <> one c) w rest plain.1 (ground arith) in
    rw (cons-append c w ("\"" <> rest))
      (rw e (rw n (ih ∙ rw (append_assoc, cons-append, nil-append) refl)))

first_next :
    (f : Char)
    → is_lower_letter (code f) ≡ true
    → (emitted (some "") f ≡ []) × (next_state (some "") f ≡ some (String.◌∷◌ f ""))
first_next f h =
    let not_quote : eqb (code f) b'"' ≡ false = ground arith in
    rw not_quote (rw h (refl, rw nil-append refl))

-- A quoted id is read, up to its closing quote.
quoted_id :
    (k rest : String)
    → IsTenantId k
    → parse_from none ("\"" <> (k <> ("\"" <> rest))) ≡ k ∷ parse_from none rest
unfolding parse_from
quoted_id String.[] rest v = absurd v.first
quoted_id (String.◌∷◌ f w) rest v =
    let (e, n) = first_next f v.first in
    rw (cons-append "\"" "" (String.◌∷◌ f w <> ("\"" <> rest))) (
      rw (nil-append (String.◌∷◌ f w <> ("\"" <> rest))) (
        rw (cons-append f w ("\"" <> rest))
          (rw e (rw n (scan f "" w rest v.plain.1 (omega (arith, v.short)) ∙ rw nil-append refl)))))

separated : (rest : String) → parse_from none (", " <> rest) ≡ parse_from none rest
unfolding parse_from
separated rest =
    rw (cons-append "," " " rest) (rw (cons-append " " "" rest) (rw (nil-append rest) refl))

ids_read : (ids : List String) → All IsTenantId ids → parse_from none (join ", " (quoted ids)) ≡ ids
unfolding join parse_from
ids_read [] v = refl
ids_read (k ∷ []) v = quoted_id k "" v.0
ids_read (k ∷ q ∷ ks) v =
    let rest = join ", " (quoted (q ∷ ks)) in
    rw (append_assoc "\"" (k <> "\"") (", " <> rest)) (
      rw (append_assoc k "\"" (", " <> rest))
        (quoted_id k (", " <> rest) v.0 ∙ rw (separated rest) (rw (ids_read (q ∷ ks) v.1) refl)))

-- For a list of valid tenant ids, `_parse_ids` of what `_format_ids` writes between the brackets is the
-- list.
pub parse_ids-inner_text :
    (ids : List String) → All IsTenantId ids → parse_ids (inner_text ids) ≡ ids
unfolding parse_ids inner_text
parse_ids-inner_text ids v = ids_read ids v
