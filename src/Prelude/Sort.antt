-- ===== src/Prelude/Sort.antt =====
-- Sorting by a text key, by code points, as Python's `sorted` and SQLite's `ORDER BY` do.
use Prim.Native.Nat.{Ordering}
use Prim.Native.String.{String, compare}
use mathlib.Core.Bool.{Bool, true, false}
use mathlib.Core.List.{List, [], ◌∷◌}
use saas_ntier_lab.Prelude.Tests.{if◌then◌else◌}
use saas_ntier_lab.Prelude.Lists.{All}

-- `s <= t`
abbrev pub text_leb : String → String → Bool
text_leb s t = elim (compare s t) [ Ordering.gt ↦ false | _ ↦ true ]

module _ {ℓ} {A : Type ℓ} (key : A → String) where
  pub insert_sorted : A → List A → List A
  insert_sorted a [] = a ∷ []
  insert_sorted a (x ∷ xs) = if text_leb (key a) (key x) then a ∷ x ∷ xs else x ∷ insert_sorted a xs

  unfoldable pub sort_by : List A → List A
  unfolding insert_sorted
  sort_by [] = []
  sort_by (x ∷ xs) = insert_sorted x (sort_by xs)

module _ {ℓ κ} {A : Type ℓ} (key : A → String) (P : A → Type κ) where
  All-if : (b : Bool) (xs ys : List A) → All P xs → All P ys → All P (if b then xs else ys)
  All-if true xs ys h k = h
  All-if false xs ys h k = k

  insert_sorted-All : (a : A) (xs : List A) → P a → All P xs → All P (insert_sorted key a xs)
  unfolding insert_sorted
  insert_sorted-All a [] h k = (h, tt)
  insert_sorted-All a (x ∷ xs) h k =
      All-if (text_leb (key a) (key x)) (a ∷ x ∷ xs) (x ∷ insert_sorted key a xs) (h, k)
        (k.0, insert_sorted-All a xs h k.1)

  -- What holds of all elements holds of all elements of the sorted list.
  pub sort_by-All : (xs : List A) → All P xs → All P (sort_by key xs)
  unfolding sort_by
  sort_by-All [] h = tt
  sort_by-All (x ∷ xs) h = insert_sorted-All x (sort_by key xs) h.0 (sort_by-All xs h.1)
