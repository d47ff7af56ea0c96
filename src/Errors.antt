-- ===== src/Errors.antt =====
-- control-plane/errors.py: the error classes, and which of them are retried.
pub mod Retry
use saas_ntier_lab.Prelude.{
  ℕ, String, Bool, true, false, Option, none, some, List, [], ◌∷◌, elem, ◌<>◌, ◌≡◌, refl, ◌⊎◌, inl,
  inr, if◌then◌else◌,
}

-- The class of an exception. `onboard_error` is `OnboardError` of helm/test-app/onboard_tenant.py,
-- `bind_unsafe` is `BindUnsafeError` of control-plane/safety.py; the others behind `permanent` are
-- Python's and botocore's. `out_of_fuel` is the model's own: a loop on fuel has used it up.
pub data Kind : Type 0 where
  control_plane validation conflict dependency aws_retryable kubernetes_retryable permanent : Kind
  onboard_error bind_unsafe value_error type_error assertion called_process timeout_expired
        os_error :
      Kind
  client_error : String → Kind
  out_of_fuel : Kind

pub record Error : Type 0 where
  pub kind : Kind
  pub message : String

pub data Result {ℓ} (A : Type ℓ) : Type ℓ where
  ok : A → Result A
  err : Error → Result A

pub Result-cases {ℓ} :
    {A : Type ℓ} (r : Result A) → ((a : A) × (r ≡ ok a)) ⊎ ((e : Error) × (r ≡ err e))
Result-cases (ok a) = inl (a, refl)
Result-cases (err e) = inr (e, refl)

-- `isinstance(exc, ControlPlaneError)`
abbrev pub is_control_plane : Kind → Bool
is_control_plane Kind.control_plane = true
is_control_plane Kind.validation = true
is_control_plane Kind.conflict = true
is_control_plane Kind.dependency = true
is_control_plane Kind.aws_retryable = true
is_control_plane Kind.kubernetes_retryable = true
is_control_plane Kind.permanent = true
is_control_plane _ = false

-- `exc.retryable`, a class attribute of `ControlPlaneError`
abbrev pub retryable : Kind → Bool
retryable Kind.aws_retryable = true
retryable Kind.kubernetes_retryable = true
retryable _ = false

-- `exc.http_status`; no attribute of the other classes
abbrev pub http_status : Kind → Option ℕ
http_status Kind.control_plane = some 500
http_status Kind.validation = some 400
http_status Kind.conflict = some 409
http_status Kind.dependency = some 424
http_status Kind.aws_retryable = some 503
http_status Kind.kubernetes_retryable = some 503
http_status Kind.permanent = some 500
http_status _ = none

abbrev pub aws_retryable_codes : List String
aws_retryable_codes =
    "Throttling" ∷ "ThrottlingException" ∷ "RequestLimitExceeded" ∷ "TooManyRequestsException"
    ∷ "ServiceUnavailable" ∷ "InternalError" ∷ "InternalFailure" ∷ "RequestTimeout"
    ∷ "TransactionInProgressException" ∷ "SlowDown" ∷ []

unfoldable pub classify_aws_error : String → String → Error
classify_aws_error code message =
    if elem code aws_retryable_codes
    then record { kind = Kind.aws_retryable; message = code <> ": " <> message }
    else record { kind = Kind.permanent; message = code <> ": " <> message }
