-- ===== src/Onboard/Orders.antt =====
-- The order of the tenants' rules on the shared load balancer: `order` of helm/test-app/onboard_tenant.py.
use saas_ntier_lab.Prelude.{
  ℕ, suc, ◌+◌, ◌*◌, String, ◌≡◌, refl, ◌==◌, true, Option, none, some, List, [], ◌∷◌, elem, arith,
  Bool-cases, inl, inr, eq_iff, ◌∙◌,
}
use saas_ntier_lab.Onboard.Chart.{index, later, group_order}

-- A listed text has an index.
index-elem : (x : String) (xs : List String) → elem x xs ≡ true → (i : ℕ) × (index x xs ≡ some i)
unfolding index
index-elem x [] h = cc
index-elem x (y ∷ ys) h = elim (Bool-cases (x == y)) [
  | inl t ↦ rw t (0, refl)
  | inr f ↦ let (i, at) = index-elem x ys (rw f at h) in rw f (rw at (suc i, refl))
]

pred_of_later : (o : Option ℕ) (i : ℕ) → later o ≡ some i → (j : ℕ) × (i ≡ suc j) × (o ≡ some j)
pred_of_later none i h = cc
pred_of_later (some j) i h = (j, ground arith, refl)

-- Two texts do not share it.
index_injective :
    (x y : String) (xs : List String) (i : ℕ) → index x xs ≡ some i → index y xs ≡ some i → x ≡ y
unfolding index
index_injective x y [] i hx hy = cc
index_injective x y (z ∷ zs) i hx hy = elim (Bool-cases (x == z)) [
  | inl a ↦ elim (Bool-cases (y == z)) [
    | inl b ↦ ground (arith, eq_iff x z, eq_iff y z)
    | inr b ↦
        let (j, is, _) = pred_of_later (index y zs) i (rw b at hy) in
        let first : some 0 ≡ some i = rw a at hx in ground arith
  ]
  | inr a ↦ elim (Bool-cases (y == z)) [
    | inl b ↦
        let (j, is, _) = pred_of_later (index x zs) i (rw a at hx) in
        let first : some 0 ≡ some i = rw b at hy in ground arith
    | inr b ↦
        let (j, is, at) = pred_of_later (index x zs) i (rw a at hx) in
        let (j', is', at') = pred_of_later (index y zs) i (rw b at hy) in
        let same : j' ≡ j = omega arith in index_injective x y zs j at (at' ∙ rw same)
  ]
]

-- Two tenants of one list of tenants have different orders.
pub group_order_injective :
    (x y : String) (ids : List String)
    → elem x ids ≡ true
    → elem y ids ≡ true
    → group_order x ids ≡ group_order y ids
    → x ≡ y
unfolding group_order
group_order_injective x y ids hx hy h =
    let (i, at) = index-elem x ids hx in
    let (j, at') = index-elem y ids hy in
    let equal : (i + 1) * 10 ≡ (j + 1) * 10 = rw (at, at') at h in
    let same : i ≡ j = omega arith in index_injective x y ids i at (at' ∙ rw same)
