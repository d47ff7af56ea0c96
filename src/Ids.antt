-- ===== src/Ids.antt =====
-- control-plane/ids.py: the one tenant-id rule of the API, the CLI and the provisioner.
pub mod Grammar
use Prim.Native.String
use saas_ntier_lab.Prelude.{
  ℕ, zero, suc, String, code, Bool, true, false, Option, ◌&&◌, ◌||◌, leb, or_else, repr,
  if◌then◌else◌, ◌<>◌,
}
use saas_ntier_lab.Errors.{Result, ok, err, Kind}

abbrev pub is_lower_letter : ℕ → Bool
is_lower_letter c = leb b'a' c && leb c b'z'

abbrev pub is_id_char : ℕ → Bool
is_id_char c = is_lower_letter c || (leb b'0' c && leb c b'9')

-- `[a-z0-9]{0,n}\Z`
pub tail_matches : ℕ → String → Bool
tail_matches n String.[] = true
tail_matches zero (String.◌∷◌ c s) = false
tail_matches (suc n) (String.◌∷◌ c s) = is_id_char (code c) && tail_matches n s

-- `^[a-z][a-z0-9]{0,15}\Z`
unfoldable pub tenant_id_re : String → Bool
unfolding tail_matches
tenant_id_re String.[] = false
tenant_id_re (String.◌∷◌ c s) = is_lower_letter (code c) && tail_matches 15 s

abbrev pub tenant_id_rule : String
tenant_id_rule = "^[a-z][a-z0-9]{0,15}$"

unfoldable pub validate_tenant_id : Option String → Result String
unfolding tenant_id_re
validate_tenant_id tenant_id =
    let value = or_else tenant_id "" in
    if tenant_id_re value
    then ok value
    else err (record {
      kind = Kind.validation;
      message = "invalid tenant id " <> repr value <> "; must match " <> tenant_id_rule;
    })
