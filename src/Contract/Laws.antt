-- ===== src/Contract/Laws.antt =====
-- When the gate of control-plane/contract_check.py passes, and what it names when it does not.
use saas_ntier_lab.Prelude.{
  String, ◌≡◌, ◌↔◌, refl, Bool, true, false, Option, some, [], arith, truthy,
}
use saas_ntier_lab.Store.{Row, Owner}
use saas_ntier_lab.Observe.{Observed, matches_active}
use saas_ntier_lab.Contract.{validate_active_contract, missing_parts, check_pointers, judge}

-- A row of the control plane has the name of its secret and the ARN of its role.
abbrev pub HasPointers : Option Owner → Row → Type 0
HasPointers (some Owner.control_plane) item =
    (truthy item.secret_name ≡ true) × (truthy item.irsa_role_arn ≡ true)
HasPointers _ item = Unit

pointers_pass :
    (owner : Option Owner) (item : Row)
    → ((check_pointers owner item).ok ≡ true) ↔ HasPointers owner item
unfolding check_pointers
pointers_pass (some Owner.control_plane) item = (λ h. ground arith, λ h. ground arith)
pointers_pass _ item = (λ h. tt, λ h. refl)

-- The gate passes exactly when the observed infrastructure is complete and, for a tenant of the
-- control plane, the registry has its secret's name and its role's ARN.
pub contract-pass_iff :
    (k : String) (o : Observed) (item : Row)
    → ((validate_active_contract k o item).ok ≡ true)
      ↔ ((matches_active o ≡ true) × HasPointers item.owned_by item)
unfolding validate_active_contract
contract-pass_iff k o item = judged (matches_active o)
  where
    judged :
        (b : Bool) → ((judge b o item).ok ≡ true) ↔ ((b ≡ true) × HasPointers item.owned_by item)
    judged false = (λ h. cc, λ h. cc (h.0))
    judged true = let (f, g) = pointers_pass item.owned_by item in (λ h. (refl, f h), λ h. g h.1)

-- Nothing is named as missing exactly when the observed infrastructure is complete.
pub missing_parts-nil_iff : (o : Observed) → (missing_parts o ≡ []) ↔ (matches_active o ≡ true)
unfolding missing_parts matches_active
missing_parts-nil_iff o = (λ h. ground arith, λ h. ground arith)
