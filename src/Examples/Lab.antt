-- ===== src/Examples/Lab.antt =====
-- Users of the lab, and what their map decodes to.
use saas_ntier_lab.Prelude.{String, ◌≡◌, ◌≢◌, ◌↔◌, Option, none, some, [], ◌∷◌, strip, lookup}
use saas_ntier_lab.LabAuth.{
  Decoded, object, one, many, normalize_tenant_id, Users, authorize_lab_user,
}
use saas_ntier_lab.LabAuth.Laws.{MayUse, authorize_lab_user-pass_iff}

abbrev users : Users
users = ("ada", "tenant-acme" ∷ []) ∷ []

authorize_lab_user-pass_iff_example :
    (authorize_lab_user (some "ada ") (some "ACME") users ≡ none) ↔ (
      (strip "ada " ≢ "")
      × MayUse (normalize_tenant_id (some "ACME")) (lookup (strip "ada ") users))
authorize_lab_user-pass_iff_example = authorize_lab_user-pass_iff (some "ada ") (some "ACME") users

-- What `{"ada": ["tenant-acme", " "], " ": "acme"}` decodes to, whatever the text.
abbrev decodes : String → Option Decoded
decodes s = some (object (("ada", many ("tenant-acme" ∷ " " ∷ [])) ∷ (" ", one "acme") ∷ []))
