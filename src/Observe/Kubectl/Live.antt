-- ===== src/Observe/Kubectl/Live.antt =====
-- The answers of kubectl that are a live tenant's, for `KubectlObserver` of control-plane/observe.py.
use saas_ntier_lab.Prelude.{
  ℕ, String, eq_iff, truthy, not, ◌&&◌, none, some, ◌≡◌, ◌≤◌, ◌≢◌, Bool-cases, true, false, Option,
  arith, inl, inr,
}
use saas_ntier_lab.Observe.{matches_active}
use saas_ntier_lab.Observe.Kubectl.{
  Object, is_some, count, wanted, running, has_role, Answers, observed_of,
}

-- The observer reads at least one of a number that is there.
abbrev pub IsPositive : Option ℕ → Type 0
IsPositive none = ⊥
IsPositive (some n) = 1 ≤ n

-- The object is there, is not `{}`, wants a replica and has a ready one.
abbrev pub IsRunning : Option Object → Type 0
IsRunning none = ⊥
IsRunning (some d) = (d.empty ≡ false) × IsPositive d.replicas × IsPositive d.ready_replicas

-- The object is there, is not `{}`, and has a text as its role's ARN that is not empty.
abbrev pub HasArn : Option Object → Type 0
HasArn none = ⊥
HasArn (some d) = (d.empty ≡ false) × (d.role_arn ≢ none) × (d.role_arn ≢ some "")

-- The answers of a live tenant: the workload wants a replica and has a ready one, the ingress, the
-- service, the network policy and the quota are there, and the service account has a role's ARN.
pub record IsLive (a : Answers) : Type 0 where
  pub deploy : IsRunning a.deploy
  pub ingress : a.ingress ≢ none
  pub service : a.service ≢ none
  pub network_policy : a.network_policy ≢ none
  pub resource_quota : a.resource_quota ≢ none
  pub service_account : HasArn a.service_account

positive_lem : (o : Option ℕ) → 1 ≤ count o → IsPositive o
positive_lem none h = omega arith
positive_lem (some n) h = h

running_lem : (o : Option Object) → 1 ≤ wanted o → 1 ≤ running o → IsRunning o
running_lem none h k = omega arith
running_lem (some d) h k = elim (Bool-cases d.empty) [
  | inl is ↦ let no : 1 ≤ 0 = rw is at h in absurd (omega arith)
  | inr not_empty ↦ (
    not_empty,
    positive_lem d.replicas (rw not_empty at h),
    positive_lem d.ready_replicas (rw not_empty at k),
  )
]

there_lem : (o : Option Object) → is_some o ≡ true → o ≢ none
there_lem none h = cc
there_lem (some d) h = λ e. cc

arn_lem : (o : Option Object) → has_role o ≡ true → HasArn o
arn_lem none h = cc
arn_lem (some d) h = arn d.role_arn h
  where
    arn :
        (t : Option String)
        → not d.empty && truthy t ≡ true
        → (d.empty ≡ false) × (t ≢ none) × (t ≢ some "")
    arn none h = ground arith
    arn (some x) h = ground (arith, eq_iff x "")

-- What is observed of answers matches ACTIVE only where they are a live tenant's.
pub observed_of-active : (a : Answers) → matches_active (observed_of a) ≡ true → IsLive a
unfolding matches_active observed_of
observed_of-active a h = record {
  deploy = running_lem a.deploy (ground arith) (ground arith);
  ingress = there_lem a.ingress (ground arith);
  service = there_lem a.service (ground arith);
  network_policy = there_lem a.network_policy (ground arith);
  resource_quota = there_lem a.resource_quota (ground arith);
  service_account = arn_lem a.service_account (ground arith);
}
