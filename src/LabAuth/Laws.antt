-- ===== src/LabAuth/Laws.antt =====
-- Whom helm/test-app/lab_auth.py lets pass.
use saas_ntier_lab.Prelude.{
  String, ◌≡◌, ◌≢◌, ◌↔◌, refl, true, Option, none, some, List, [], ◌∷◌, elem, ◌==◌, or_else, strip,
  lookup, insert, All, arith, eq_iff, Bool-cases, inl, inr, if◌then◌else◌,
}
use saas_ntier_lab.LabAuth.{
  normalize_tenant_id, Tenants, one, many, neither, Decoded, object, no_object, Users, stripped,
  add_user, load_from, load_decoded, load_lab_users, Refusal, forbidden, missing_header,
  normalize_all, authorize_known, authorize_lab_user,
}

-- One of the tenants, normalized, is the pod's.
pub record MayUse (pod_tenant : String) (allowed : Option (List String)) : Type 0 where
  pub tenants : List String
  pub known : allowed ≡ some tenants
  pub named : pod_tenant ≢ ""
  pub listed : elem pod_tenant (normalize_all tenants) ≡ true

-- The tests of `authorize_known`, on the values that they are of.
tested_iff :
    (pod : String) (ids : List String) (e : Refusal)
    → ((if pod == "" then some e else if elem pod ids then none else some e) ≡ none)
      ↔ ((pod ≢ "") × (elem pod ids ≡ true))
tested_iff pod ids e = (
  λ h. (λ q. ground (arith, eq_iff pod ""), ground arith),
  λ h. let n = h.0 in let m = h.1 in ground (arith, eq_iff pod ""),
)

known_iff :
    (name : String) (tenant_id : Option String) (allowed : Option (List String))
    → (authorize_known name tenant_id allowed ≡ none)
      ↔ MayUse (normalize_tenant_id tenant_id) allowed
unfolding authorize_known
known_iff name tenant_id none = (λ h. cc, λ m. let q = m.known in cc)
known_iff name tenant_id (some ts) =
    let (f, g) =
      tested_iff (normalize_tenant_id tenant_id) (normalize_all ts) (forbidden name tenant_id) in
    (
      λ h. record { tenants = ts; known = refl; named = (f h).0; listed = (f h).1 },
      λ m. let q = m.known in let same : ts ≡ m.tenants = cc in g (m.named, rw same m.listed),
    )

-- A request is allowed exactly when it names a user, without surrounding white space, that the map
-- has, the pod's tenant is not empty once it is normalized, and it is, normalized, among the user's
-- tenants.
pub authorize_lab_user-pass_iff :
    (user tenant_id : Option String) (users : Users)
    → (authorize_lab_user user tenant_id users ≡ none) ↔ (
        (strip (or_else user "") ≢ "")
        × MayUse (normalize_tenant_id tenant_id) (lookup (strip (or_else user "")) users))
unfolding authorize_lab_user
authorize_lab_user-pass_iff user tenant_id users =
    by (strip (or_else user "")) (lookup (strip (or_else user "")) users)
  where
    by :
        (name : String) (allowed : Option (List String))
        → ((if name == "" then some missing_header else authorize_known name tenant_id allowed)
            ≡ none)
          ↔ ((name ≢ "") × MayUse (normalize_tenant_id tenant_id) allowed)
    by name allowed =
        let (f, g) = known_iff name tenant_id allowed in
        elim (Bool-cases (name == "")) [
          | inl e ↦ rw e (λ h. cc, λ h. absurd (h.0 ((eq_iff name "").0 e)))
          | inr n ↦ rw n (λ h. (λ q. ground (arith, eq_iff name ""), f h), λ h. g h.1)
        ]

-- Python's dict of users: no name and no tenant of a user is empty.
abbrev pub IsClean : Users → Type 0
IsClean [] = Unit
IsClean ((name, tenants) ∷ users) = (name ≢ "") × All (λ t. t ≢ "") tenants × IsClean users

stripped_full : (ts : List String) → All (λ t. t ≢ "") (stripped ts)
unfolding stripped
stripped_full [] = tt
stripped_full (t ∷ ts) = elim (Bool-cases (strip t == "")) [
  | inl e ↦ rw e (stripped_full ts)
  | inr f ↦ rw f ((λ q. ground (arith, eq_iff (strip t) "")), stripped_full ts)
]

insert-IsClean :
    (k : String) (ts : List String) (users : Users)
    → k ≢ ""
    → All (λ t. t ≢ "") ts
    → IsClean users
    → IsClean (insert k ts users)
unfolding insert
insert-IsClean k ts [] n a u = (n, a, tt)
insert-IsClean k ts ((j, vs) ∷ users) n a (m, b, u) = elim (Bool-cases (j == k)) [
  | inl e ↦ rw e (m, a, u)
  | inr f ↦ rw f (m, b, insert-IsClean k ts users n a u)
]

add-IsClean :
    (k : String) (t : Tenants) (users : Users)
    → k ≢ ""
    → IsClean users
    → IsClean (add_user k t users)
unfolding add_user
add-IsClean k (one t) users n u = insert-IsClean k _ users n (stripped_full (t ∷ [])) u
add-IsClean k (many ts) users n u = insert-IsClean k _ users n (stripped_full ts) u
add-IsClean k neither users n u = u

load_from-IsClean :
    (d : List (String × Tenants)) (users : Users) → IsClean users → IsClean (load_from d users)
unfolding load_from
load_from-IsClean [] users u = u
load_from-IsClean ((name, t) ∷ d) users u = elim (Bool-cases (strip name == "")) [
  | inl e ↦ rw e (load_from-IsClean d users u)
  | inr f ↦ rw f (
      load_from-IsClean d _
        (add-IsClean (strip name) t users (λ q. ground (arith, eq_iff (strip name) "")) u))
]

decoded-IsClean : (d : Option Decoded) → IsClean (load_decoded d)
unfolding load_decoded
decoded-IsClean none = tt
decoded-IsClean (some (object d)) = load_from-IsClean d [] tt
decoded-IsClean (some no_object) = tt

-- Whatever the text is and however it decodes, the map of users has no empty user and no empty tenant.
pub load_lab_users-IsClean :
    (loads : String → Option Decoded) (raw : Option String) → IsClean (load_lab_users loads raw)
unfolding load_lab_users
load_lab_users-IsClean loads raw = elim (Bool-cases (strip (or_else raw "") == "")) [
  | inl e ↦ rw e tt
  | inr f ↦ rw f (decoded-IsClean (loads (or_else raw "")))
]
