-- ===== src/Ids/Grammar.antt =====
-- The texts that the tenant-id rule of control-plane/ids.py accepts.
use saas_ntier_lab.Prelude.{
  ℕ, zero, suc, ◌≤◌, String, code, codes, length, All, true, false, Option, none, some, ◌≡◌, refl,
  ap, ◌↔◌, ◌≢◌, arith, List, [], ◌∷◌, is_space, strip, lower, NoSpace, NoUpper, strip_of_NoSpace,
  lower_of_NoUpper, or_else-empty,
}
use mathlib.Core.Path.{subst}
use saas_ntier_lab.Errors.{ok}
use saas_ntier_lab.Ids.{is_lower_letter, is_id_char, tail_matches, tenant_id_re, validate_tenant_id}

-- The first character of the text is a letter from a to z.
abbrev StartsLower : List ℕ → Type 0
StartsLower [] = ⊥
StartsLower (c ∷ cs) = is_lower_letter c ≡ true

-- One to sixteen characters, all of a-z and 0-9, the first of a-z.
pub record IsTenantId (s : String) : Type 0 where
  pub first : StartsLower (codes s)
  pub short : length (codes s) ≤ 16
  pub plain : All (λ c. is_id_char c ≡ true) (codes s)

tail_matches_sound :
    (n : ℕ) (s : String)
    → tail_matches n s ≡ true
    → (length (codes s) ≤ n) × All (λ c. is_id_char c ≡ true) (codes s)
unfolding tail_matches
tail_matches_sound n String.[] h = (omega arith, tt)
tail_matches_sound zero (String.◌∷◌ c s) h = cc
tail_matches_sound (suc n) (String.◌∷◌ c s) h = ground (arith, tail_matches_sound n s)

tail_matches_complete :
    (n : ℕ) (s : String)
    → length (codes s) ≤ n
    → All (λ c. is_id_char c ≡ true) (codes s)
    → tail_matches n s ≡ true
unfolding tail_matches
tail_matches_complete n String.[] h a = refl
tail_matches_complete zero (String.◌∷◌ c s) h a = absurd (omega arith)
tail_matches_complete (suc n) (String.◌∷◌ c s) h a =
    rw a.0 (tail_matches_complete n s (omega arith) a.1)

pub tenant_id_re-IsTenantId : (s : String) → (tenant_id_re s ≡ true) ↔ IsTenantId s
unfolding tenant_id_re
tenant_id_re-IsTenantId String.[] = (λ h. cc, λ t. absurd t.first)
tenant_id_re-IsTenantId (String.◌∷◌ c s) = (
  λ h. record {
    first = ground arith;
    short = ground (arith, tail_matches_sound 15 s);
    plain = ground (arith, tail_matches_sound 15 s);
  },
  λ t. rw (t.first) (tail_matches_complete 15 s (omega (arith, t.short)) t.plain.1),
)

validate_ok :
    (w s : String) → validate_tenant_id (some w) ≡ ok s → (w ≡ s) × (tenant_id_re w ≡ true)
unfolding validate_tenant_id
validate_ok w s h = ground (arith, or_else-empty w)

pub validate_of_IsTenantId : (w : String) → IsTenantId w → validate_tenant_id (some w) ≡ ok w
unfolding validate_tenant_id
validate_of_IsTenantId w t = rw or_else-empty (rw ((tenant_id_re-IsTenantId w).1 t))

validate_none : (s : String) → validate_tenant_id none ≢ ok s
unfolding validate_tenant_id tenant_id_re
validate_none s h = cc

-- `validate_tenant_id` accepts a value, and returns it unchanged, exactly when it is a text of one
-- to sixteen characters, all of a-z and 0-9, that begins with a letter.
pub validate_tenant_id-IsTenantId :
    (v : Option String) (s : String) → (validate_tenant_id v ≡ ok s) ↔ ((v ≡ some s) × IsTenantId s)
validate_tenant_id-IsTenantId none s = (λ h. absurd (validate_none s h), λ h. cc (h.0))
validate_tenant_id-IsTenantId (some w) s = (
  λ h.
      let (e, m) = validate_ok w s h in
      (ap some e, subst IsTenantId e ((tenant_id_re-IsTenantId w).0 m)),
  λ h. rw (h.0) (validate_of_IsTenantId s h.1),
)

id_char_no_space : (c : ℕ) → is_id_char c ≡ true → is_space c ≡ false
unfolding is_space
id_char_no_space c h = ground arith

plain-NoSpace : (s : String) → All (λ c. is_id_char c ≡ true) (codes s) → NoSpace s
plain-NoSpace String.[] a = tt
plain-NoSpace (String.◌∷◌ c s) a = (id_char_no_space (code c) a.0, plain-NoSpace s a.1)

plain-NoUpper : (s : String) → All (λ c. is_id_char c ≡ true) (codes s) → NoUpper s
plain-NoUpper String.[] a = tt
plain-NoUpper (String.◌∷◌ c s) a = let h = a.0 in (ground arith, plain-NoUpper s a.1)

-- Neither trimming nor folding the case changes a valid tenant id.
pub normal_IsTenantId : (s : String) → IsTenantId s → (strip s ≡ s) × (lower s ≡ s)
normal_IsTenantId s t =
    (strip_of_NoSpace s (plain-NoSpace s t.plain), lower_of_NoUpper s (plain-NoUpper s t.plain))
