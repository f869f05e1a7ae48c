-- ===== src/Kube/Errors.antt =====
-- The errors of the program, as values: the constructor of apierrors or field that the code calls,
-- with its arguments. A message is the data that `fmt.Errorf` puts into it.
use simple_api_server.Prelude.{GoString, List, ℕ, Bool, true, false}
use simple_api_server.Kube.Meta.{GroupResource}

-- `field.Path`, from its root.
abbrev pub FieldPath : Type 0
FieldPath = List GoString

pub data FieldError : Type 0 where
  required : FieldPath → FieldError
  negative : FieldPath → ℕ → FieldError
  exceeds_generation : FieldPath → ℕ → ℕ → FieldError
  -- an error of a validator of k8s.io
  library_field_error : GoString → FieldError

pub data Cause : Type 0 where
  name_required : Cause
  namespace_required : GroupResource → Cause
  resource_version_required : Cause
  object_modified : Cause
  uid_mismatch : GoString → GoString → Cause
  resource_version_mismatch : GoString → GoString → Cause
  field_selectors_unsupported : GroupResource → Cause
  not_a_task : Cause
  -- the error of meta.Accessor
  no_object_meta : Cause

pub data ApiError : Type 0 where
  bad_request : Cause → ApiError
  not_found : GroupResource → GoString → ApiError
  already_exists : GroupResource → GoString → ApiError
  conflict : GroupResource → GoString → Cause → ApiError
  internal_error : Cause → ApiError
  method_not_supported : GroupResource → GoString → ApiError
  -- the plain error of bumpAndStampLocked
  cannot_stamp : Cause → ApiError
  invalid : List FieldError → ApiError
  -- an error of an admission hook, of an UpdatedObjectInfo or of another k8s.io function
  library_error : GoString → ApiError

-- apierrors.IsNotFound
abbrev pub is_not_found : ApiError → Bool
is_not_found (not_found gr name) = true
is_not_found _ = false
