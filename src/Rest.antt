-- ===== src/Rest.antt =====
-- k8s.io/apiserver/pkg/registry/rest and its neighbours: the strategy interfaces that the program
-- implements, and the functions of those packages that it calls, as parameters.
pub mod Laws
use simple_api_server.Prelude.{GoString, Bool, List, Option}
use simple_api_server.Kube.{
  Slice, ObjectMeta, Condition, Preconditions, FieldPath, FieldError, ApiError,
}
use simple_api_server.Kube.Outcome.{Outcome}
use simple_api_server.Api.{Object}

-- rest.RESTCreateStrategy. A method that mutates its object returns the new one.
pub record CreateStrategy (Ctx : Type 0) : Type 0 where
  pub namespace_scoped : Bool
  pub prepare_for_create : Ctx → Object → Outcome Object
  pub validate : Ctx → Object → Outcome (List FieldError)
  pub canonicalize : Object → Object
  pub warnings_on_create : Ctx → Object → List GoString

-- rest.RESTUpdateStrategy. The last argument is the old object.
pub record UpdateStrategy (Ctx : Type 0) : Type 0 where
  pub namespace_scoped : Bool
  pub allow_create_on_update : Bool
  pub allow_unconditional_update : Bool
  pub prepare_for_update : Ctx → Object → Object → Outcome Object
  pub validate_update : Ctx → Object → Object → Outcome (List FieldError)
  pub canonicalize : Object → Object
  pub warnings_on_update : Ctx → Object → Object → List GoString

-- The functions that are called, by the name of the package.
pub record Library (Ctx : Type 0) : Type 0 where
  -- genericapirequest.NamespaceFrom
  pub namespace_from : Ctx → GoString × Bool
  -- labels.Everything().Matches
  pub everything : List (GoString × GoString) → Bool
  -- apivalidation.ValidateObjectMeta with NameIsDNSSubdomain
  pub validate_object_meta : ObjectMeta → Bool → FieldPath → List FieldError
  -- metav1validation.ValidateConditions
  pub validate_conditions : Slice Condition → FieldPath → List FieldError
  -- rest.FillObjectMetaSystemFields
  pub fill_object_meta_system_fields : ObjectMeta → ObjectMeta
  -- rest.BeforeCreate and rest.BeforeUpdate, which call the strategy back; the result is the object
  -- that they have mutated.
  pub before_create : CreateStrategy Ctx → Ctx → Object → Outcome Object
  pub before_update : UpdateStrategy Ctx → Ctx → Object → Object → Outcome Object

-- rest.ValidateObjectFunc and rest.ValidateObjectUpdateFunc; nil is `none`.
abbrev pub ValidateObjectFunc : Type 0 → Type 0
ValidateObjectFunc Ctx = Option (Ctx → Object → Option ApiError)

abbrev pub ValidateObjectUpdateFunc : Type 0 → Type 0
ValidateObjectUpdateFunc Ctx = Option (Ctx → Object → Object → Option ApiError)

-- rest.UpdatedObjectInfo
pub record UpdatedObjectInfo (Ctx : Type 0) : Type 0 where
  pub preconditions : Option Preconditions
  pub updated_object : Ctx → Object → Outcome Object
