-- ===== src/LabAuth.antt =====
-- helm/test-app/lab_auth.py: which user of the lab may be served by the pod of a tenant. Decoding JSON
-- is Python's: `loads` is `json.loads`, and `none` its JSONDecodeError.
pub mod Laws
use saas_ntier_lab.Prelude.{
  ℕ, String, Bool, true, false, not, ◌&&◌, Option, none, some, List, [], ◌∷◌, elem, map, ◌==◌,
  or_else, strip, lower, starts_with, drop, lookup, insert, if◌then◌else◌,
}

unfoldable pub normalize_tenant_id : Option String → String
unfolding strip lower starts_with drop
normalize_tenant_id value =
    let v = lower (strip (or_else value "")) in if starts_with v "tenant-" then drop 7 v else v

-- The tenants of a user: a text, a list (of the texts that `str` gives), or something else.
pub data Tenants : Type 0 where
  one : String → Tenants
  many : List String → Tenants
  neither : Tenants

-- A decoded document: an object, with its keys in order, or something else.
pub data Decoded : Type 0 where
  object : List (String × Tenants) → Decoded
  no_object : Decoded

abbrev pub Users : Type 0
Users = List (String × List String)

-- `[str(t).strip() for t in tenants if str(t).strip()]`
pub stripped : List String → List String
unfolding strip
stripped [] = []
stripped (t ∷ ts) = let rest = stripped ts in if strip t == "" then rest else strip t ∷ rest

add_user : String → Tenants → Users → Users
unfolding stripped insert
add_user key (one t) users = insert key (stripped (t ∷ [])) users
add_user key (many ts) users = insert key (stripped ts) users
add_user key neither users = users

-- The loop of `load_lab_users`, with what it has made so far.
load_from : List (String × Tenants) → Users → Users
unfolding add_user strip
load_from [] users = users
load_from ((name, tenants) ∷ rest) users =
    load_from rest (if strip name == "" then users else add_user (strip name) tenants users)

load_decoded : Option Decoded → Users
unfolding load_from
load_decoded (some (object d)) = load_from d []
load_decoded _ = []

unfoldable pub load_lab_users : (String → Option Decoded) → Option String → Users
unfolding load_decoded strip
load_lab_users loads raw =
    if strip (or_else raw "") == "" then [] else load_decoded (loads (or_else raw ""))

-- A response that rejects: its status and its body; `none` is a field that is left out, and
-- `some none` is null.
pub record Refusal : Type 0 where
  pub status : ℕ
  pub error : String
  pub message : String
  pub user : Option String
  pub tenant_id : Option (Option String)

abbrev pub missing_header : Refusal
missing_header = record {
  status = 401;
  error = "unauthorized";
  message = "Missing X-Lab-User header";
  user = none;
  tenant_id = none;
}

abbrev pub unknown_user : String → Refusal
unknown_user name = record {
  status = 401;
  error = "unauthorized";
  message = "Unknown lab user";
  user = some name;
  tenant_id = none;
}

-- `tenant_id or None`
abbrev none_if_empty : Option String → Option String
none_if_empty none = none
none_if_empty (some s) = if s == "" then none else some s

abbrev pub forbidden : String → Option String → Refusal
forbidden name tenant_id = record {
  status = 403;
  error = "forbidden";
  message = "User is not authorized for this tenant";
  user = some name;
  tenant_id = some (none_if_empty tenant_id);
}

pub normalize_all : List String → List String
unfolding normalize_tenant_id
normalize_all [] = []
normalize_all (t ∷ ts) = normalize_tenant_id (some t) ∷ normalize_all ts

-- `authorize_lab_user` from the lookup of the user on
authorize_known : String → Option String → Option (List String) → Option Refusal
unfolding normalize_all normalize_tenant_id
authorize_known name tenant_id none = some (unknown_user name)
authorize_known name tenant_id (some allowed) =
    let pod_tenant = normalize_tenant_id tenant_id in
    if pod_tenant == ""
    then some (forbidden name tenant_id)
    else if elem pod_tenant (normalize_all allowed)
    then none
    else some (forbidden name tenant_id)

-- The refusal, or `none` if the request is allowed.
unfoldable pub authorize_lab_user : Option String → Option String → Users → Option Refusal
unfolding authorize_known strip lookup
authorize_lab_user user tenant_id users =
    let name = strip (or_else user "") in
    if name == "" then some missing_header else authorize_known name tenant_id (lookup name users)
