-- ===== src/Observe/Kubectl/Laws.antt =====
-- What `KubectlObserver` of control-plane/observe.py has been told of a tenant that it sees as live.
use saas_ntier_lab.Prelude.{
  String, ◌≡◌, ◌≢◌, sym, ap, Bool-cases, true, false, Option, List, [], ◌∷◌, ◌<>◌, inl, inr,
}
use saas_ntier_lab.Errors.{ok}
use saas_ntier_lab.Observe.{Observed, nothing_observed, matches_active}
use saas_ntier_lab.Exec.{Platform, World, Exec}
use saas_ntier_lab.Exec.Returns.{>>=-eq-ok}
use saas_ntier_lab.Observe.Kubectl.{
  Object, is_there, Answers, observed_of, observe_live, observe, get_in,
}
use saas_ntier_lab.Observe.Kubectl.Live.{IsLive, observed_of-active}

nothing_inactive : matches_active nothing_observed ≢ true
unfolding matches_active
nothing_inactive h = cc

module _ {p : Platform} (kubectl_json : List String → Exec p (Option Object)) where
  -- kubectl has answered `a` to the six questions on this namespace that are asked one after the other
  -- from the state `w`.
  pub record HasAnswered (ns : String) (a : Answers) (w : World p) : Type 0 where
    pub after_deploy : World p
    pub after_ingress : World p
    pub after_service : World p
    pub after_policy : World p
    pub after_quota : World p
    pub after_account : World p
    pub deploy :
        kubectl_json ("-n" ∷ ns ∷ "get" ∷ "deploy" ∷ "test-app" ∷ []) w
        ≡ (ok a.deploy, after_deploy)
    pub ingress :
        kubectl_json ("-n" ∷ ns ∷ "get" ∷ "ingress" ∷ "test-app" ∷ []) after_deploy
        ≡ (ok a.ingress, after_ingress)
    pub service :
        kubectl_json ("-n" ∷ ns ∷ "get" ∷ "svc" ∷ "test-app" ∷ []) after_ingress
        ≡ (ok a.service, after_service)
    pub network_policy :
        kubectl_json ("-n" ∷ ns ∷ "get" ∷ "networkpolicy" ∷ "test-app" ∷ []) after_service
        ≡ (ok a.network_policy, after_policy)
    pub resource_quota :
        kubectl_json ("-n" ∷ ns ∷ "get" ∷ "resourcequota" ∷ "test-app-quota" ∷ []) after_policy
        ≡ (ok a.resource_quota, after_quota)
    pub service_account :
        kubectl_json ("-n" ∷ ns ∷ "get" ∷ "sa" ∷ "test-app" ∷ []) after_quota
        ≡ (ok a.service_account, after_account)

  -- What `observe` of a tenant has been told and what it makes of it: kubectl's answer on the
  -- namespace, which is there, and from then on the six others.
  pub record IsObserved (k : String) (w : World p) (o : Observed) : Type 0 where
    pub namespace : Option Object
    pub after_namespace : World p
    pub asked :
        kubectl_json ("get" ∷ "ns" ∷ ("tenant-" <> k) ∷ []) w ≡ (ok namespace, after_namespace)
    pub there : is_there namespace ≡ true
    pub answers : Answers
    pub answered : HasAnswered ("tenant-" <> k) answers after_namespace
    pub observed : o ≡ observed_of answers

  answer_eq :
      (q : List String) (w : World p) (a : Option Object)
      → (kubectl_json q w).0 ≡ ok a
      → kubectl_json q w ≡ (ok a, (kubectl_json q w).1)
  answer_eq q w a h = ap (λ r. (r, (kubectl_json q w).1)) h

  live_answers :
      (ns : String) (w : World p) (o : Observed)
      → (observe_live kubectl_json ns true w).0 ≡ ok o
      → (a : Answers) × HasAnswered ns a w × (o ≡ observed_of a)
  unfolding observe_live
  live_answers ns w o h =
      let (deploy, q, rest, _) = >>=-eq-ok (get_in kubectl_json ns "deploy" "test-app") _ w o h in
      let (ingress, q1, rest1, _) =
        >>=-eq-ok (get_in kubectl_json ns "ingress" "test-app") _ _ o rest in
      let (service, q2, rest2, _) =
        >>=-eq-ok (get_in kubectl_json ns "svc" "test-app") _ _ o rest1 in
      let (policy, q3, rest3, _) =
        >>=-eq-ok (get_in kubectl_json ns "networkpolicy" "test-app") _ _ o rest2 in
      let (quota, q4, rest4, _) =
        >>=-eq-ok (get_in kubectl_json ns "resourcequota" "test-app-quota") _ _ o rest3 in
      let (account, q5, rest5, _) =
        >>=-eq-ok (get_in kubectl_json ns "sa" "test-app") _ _ o rest4 in
      let a : Answers = record {
        deploy = deploy;
        ingress = ingress;
        service = service;
        network_policy = policy;
        resource_quota = quota;
        service_account = account;
      } in
      let same : observed_of a ≡ o = cc in
      (
        a,
        record {
          after_deploy = _;
          after_ingress = _;
          after_service = _;
          after_policy = _;
          after_quota = _;
          after_account = _;
          deploy = answer_eq _ _ _ q;
          ingress = answer_eq _ _ _ q1;
          service = answer_eq _ _ _ q2;
          network_policy = answer_eq _ _ _ q3;
          resource_quota = answer_eq _ _ _ q4;
          service_account = answer_eq _ _ _ q5;
        },
        sym same,
      )

  live-active :
      (k : String) (w v : World p) (ns : Option Object) (o : Observed)
      → kubectl_json ("get" ∷ "ns" ∷ ("tenant-" <> k) ∷ []) w ≡ (ok ns, v)
      → (observe_live kubectl_json ("tenant-" <> k) (is_there ns) v).0 ≡ ok o
      → matches_active o ≡ true
      → IsObserved k w o
  live-active k w v ns o asked h m = elim (Bool-cases (is_there ns)) [
    | inl there ↦
        let (a, answered, same) = live_answers ("tenant-" <> k) v o (rw there at h) in
        record {
          namespace = ns;
          after_namespace = v;
          asked = asked;
          there = there;
          answers = a;
          answered = answered;
          observed = same;
        }
    | inr gone ↦ absurd (nothing_inactive (by m (rw gone at h)))
  ]
    where
      by :
          matches_active o ≡ true
          → (observe_live kubectl_json ("tenant-" <> k) false v).0 ≡ ok o
          → matches_active nothing_observed ≡ true
      by m q = unfold observe_live in (let same : nothing_observed ≡ o = cc in rw same m)

  -- If what the observer returns of a tenant matches ACTIVE, then kubectl has answered so in this run:
  -- from the state at its start the tenant's namespace is there, and then the workload, the ingress, the
  -- service, the network policy, the quota and the service account, asked in this order, have answers
  -- that are a live tenant's, and what is returned is made of them.
  pub observe-active :
      (k : String) (w : World p) (o : Observed)
      → (observe kubectl_json k w).0 ≡ ok o
      → matches_active o ≡ true
      → (seen : IsObserved k w o) × IsLive seen.answers
  unfolding observe
  observe-active k w o q m =
      let (ns, asked, rest, _) =
        >>=-eq-ok (kubectl_json ("get" ∷ "ns" ∷ ("tenant-" <> k) ∷ [])) _ w o q in
      let seen = live-active k w _ ns o (answer_eq _ _ _ asked) rest m in
      (seen, observed_of-active seen.answers (rw seen.observed at m))
