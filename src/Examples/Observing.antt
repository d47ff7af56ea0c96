-- ===== src/Examples/Observing.antt =====
-- An observation of a live tenant.
use saas_ntier_lab.Prelude.{String, ◌≡◌, refl, true, false, Option, none, some, List}
use saas_ntier_lab.Errors.{ok}
use saas_ntier_lab.Observe.{Observed, matches_active}
use saas_ntier_lab.Observe.Kubectl.{Object, Answers, observed_of, observe}
use saas_ntier_lab.Observe.Kubectl.Laws.{IsObserved, observe-active}
use saas_ntier_lab.Observe.Kubectl.Live.{IsLive}
use saas_ntier_lab.Exec.{Exec, pure}
use saas_ntier_lab.Examples.{calm, world}

-- Every object is there, with two replicas, one of them ready, and a role.
abbrev thing : Object
thing = record {
  empty = false;
  replicas = some 2;
  ready_replicas = some 1;
  role_arn = some "arn:aws:iam::1:role/x";
}

abbrev answers : Answers
answers = record {
  deploy = some thing;
  ingress = some thing;
  service = some thing;
  network_policy = none;
  resource_quota = some thing;
  service_account = some thing;
}

abbrev kubectl : List String → Exec calm (Option Object)
kubectl args = pure (some thing)

abbrev seen : Observed
seen = record {
  namespace = true;
  deploy_ready = true;
  replicas = 2;
  ingress = true;
  service = true;
  network_policy = true;
  resource_quota = true;
  irsa_sa = true;
  secret = none;
  irsa = none;
}

observes : (observe kubectl "acme" world).0 ≡ ok seen
unfolding observe observed_of
observes = refl

seen_active : matches_active seen ≡ true
unfolding matches_active
seen_active = refl

observe-active_example : (made : IsObserved kubectl "acme" world seen) × IsLive made.answers
observe-active_example = observe-active kubectl "acme" world seen observes seen_active
