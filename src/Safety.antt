-- ===== src/Safety.antt =====
-- control-plane/safety.py: the bind guard, the bearer token of the HTTP API, and the recovery window
-- of a deleted secret. An environment variable that the code reads is an argument, `none` if unset.
pub mod Laws
use Prim.Native.String
use saas_ntier_lab.Prelude.{
  ℕ, ◌≡◌, refl, zero, suc, ◌+◌, ◌*◌, ◌-◌, String, code, Bool, true, false, not, ◌&&◌, ◌||◌, Option,
  none, some, List, [], ◌∷◌, elem, eqb, leb, ltb, ◌==◌, ◌<>◌, repr, or_else, strip, lower,
  starts_with, drop, all_chars, if◌then◌else◌,
}
use saas_ntier_lab.Errors.{Result, ok, err, Error, Kind}

abbrev pub loopback_hosts : List String
loopback_hosts = "127.0.0.1" ∷ "::1" ∷ "localhost" ∷ []

-- An empty host is not loopback.
unfoldable pub is_loopback_host : String → Bool
unfolding strip lower
is_loopback_host host = elem (lower (strip host)) loopback_hosts

-- `configured_token`, from `CP_API_TOKEN`
unfoldable pub configured_token : Option String → String
unfolding strip
configured_token env = strip (or_else env "")

-- The token that `assert_bind_safety` goes by.
abbrev presented_token : Option String → Option String → String
presented_token env none = configured_token env
presented_token env (some token) = strip token

unfoldable pub assert_bind_safety : Option String → String → Option String → Result (Unit {0})
unfolding is_loopback_host configured_token
assert_bind_safety env host token =
    if is_loopback_host host
    then ok tt
    else if not (presented_token env token == "")
    then ok tt
    else err (record {
      kind = Kind.bind_unsafe;
      message =
          "Refusing to bind the control-plane API on "
          <> repr host
          <> " without authentication.\n"
          <> "Anyone who can reach POST/DELETE /tenants can create, suspend, or delete tenants.\n"
          <> "  • Lab default: CP_HOST=127.0.0.1 (no token)\n"
          <> "  • Non-loopback: set CP_API_TOKEN and send Authorization: Bearer <token>\n"
          <> "Production: Admin UI/API → OIDC → control plane (not a static token).";
    })

unfoldable pub bearer_token : Option String → String
unfolding strip lower starts_with drop
bearer_token authorization =
    let raw = strip (or_else authorization "") in
    if starts_with (lower raw) "bearer " then strip (drop 7 raw) else ""

-- A response that rejects a request: its status and its JSON body.
pub record Rejection : Type 0 where
  pub status : ℕ
  pub error : String
  pub message : String

abbrev pub is_ascii : String → Bool
is_ascii s = all_chars (λ c. ltb c 128) s

-- `hmac.compare_digest` of two texts: a `TypeError` unless both are ASCII
abbrev pub compare_digest : String → String → Result Bool
compare_digest a b =
    if is_ascii a && is_ascii b
    then ok (a == b)
    else err (record {
      kind = Kind.type_error;
      message = "comparing strings with non-ASCII characters is not supported";
    })

abbrev pub unauthorized : Rejection
unauthorized = record {
  status = 401;
  error = "unauthorized";
  message = "Authorization: Bearer token required";
}

abbrev decide_digest : Result Bool → Result (Option Rejection)
decide_digest (ok true) = ok none
decide_digest (ok false) = ok (some unauthorized)
decide_digest (err e) = err e

-- `authorize_http` from its tests on.
pub decide_http : String → String → String → Result (Option Rejection)
decide_http path secret presented =
    if path == "/health"
    then ok none
    else if secret == ""
    then ok none
    else if presented == ""
    then ok (some unauthorized)
    else decide_digest (compare_digest presented secret)

-- The rejection of a request, or `none` if it may pass.
unfoldable pub authorize_http : String → Option String → String → Result (Option Rejection)
unfolding bearer_token strip decide_http
authorize_http path authorization token =
    decide_http path (strip token) (bearer_token authorization)

-- What Python's `int` reads: the sign (true is minus) and the digits.
abbrev pub Number : Type 0
Number = Bool × ℕ

-- The digits of `int`, with one underscore between two digits at most; `last` says whether a digit
-- has just been read.
digits_from : ℕ → Bool → String → Option ℕ
digits_from n last String.[] = if last then some n else none
digits_from n last (String.◌∷◌ c s) =
    let d = code c in
    let more = digits_from (n * 10 + (d - 48)) true s in
    let gap = digits_from n false s in
    if leb 48 d && leb d 57 then more else if eqb d b'_' && last then gap else none

with_sign : Bool → Option ℕ → Option Number
with_sign minus none = none
with_sign minus (some n) = some (minus, n)

-- `int(s)` of a text of ASCII digits
unfoldable pub parse_int : String → Option Number
unfolding digits_from with_sign
parse_int String.[] = none
parse_int (String.◌∷◌ c s) =
    if eqb (code c) b'-'
    then with_sign true (digits_from 0 false s)
    else if eqb (code c) b'+'
    then with_sign false (digits_from 0 false s)
    else with_sign false (digits_from 0 false (String.◌∷◌ c s))

value_error : String → Error
value_error text = record { kind = Kind.value_error; message = text }

window_of : Option Number → Result ℕ
unfolding value_error
window_of none = err (value_error "CP_SECRET_RECOVERY_DAYS must be an integer")
window_of (some (minus, days)) =
    if eqb days 0
    then ok 0
    else if not minus && leb 7 days && leb days 30
    then ok days
    else err (value_error "CP_SECRET_RECOVERY_DAYS must be 0 (lab force-delete) or 7–30")

-- With `raw` the argument, or else the variable `CP_SECRET_RECOVERY_DAYS`.
abbrev pub window_text : Option String → Option String → String
window_text env none = or_else env "0"
window_text env (some raw) = or_else (some raw) "0"

unfoldable pub secret_recovery_window_days : Option String → Option String → Result ℕ
unfolding window_of parse_int strip
secret_recovery_window_days env raw = window_of (parse_int (strip (window_text env raw)))

window_runs : secret_recovery_window_days (some " 1_4 ") none ≡ ok 14
unfolding secret_recovery_window_days
window_runs = refl

bearer_runs : bearer_token (some " BEARER  s3cret ") ≡ "s3cret"
unfolding bearer_token
bearer_runs = refl
