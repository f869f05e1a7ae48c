-- ===== src/Registry/Accept.antt =====
-- The code of the handlers of pkg/registry/tasks/task/storage.go between two calls of the store:
-- what decides whether a request is accepted, and as which object.
use simple_api_server.Prelude.{[], Option, none, some, GoString}
use simple_api_server.Kube.{GroupResource, ObjectMeta, Preconditions}
use simple_api_server.Kube.Outcome.{Outcome, ok, panic, ◌>>=◌, ◌>>◌}
use simple_api_server.Api.{Object, accessor, set_object_meta}
use simple_api_server.Rest.{
  Library, UpdateStrategy, UpdatedObjectInfo, ValidateObjectFunc, ValidateObjectUpdateFunc,
}
use simple_api_server.Store.{Key}
use simple_api_server.Strategy
use simple_api_server.Registry.Checks.{
  require_meta, check_resource_version, check_preconditions, validate_object,
  validate_object_update,
}

-- rest.FillObjectMetaSystemFields on the accessor of an object.
abbrev pub fill_system_fields : {Ctx : Type 0} → Library Ctx → ObjectMeta → Object → Object
fill_system_fields lib acc obj = set_object_meta (lib.fill_object_meta_system_fields acc) obj

-- `inmemory.Key{accessor.GetNamespace(), accessor.GetName()}`: BeforeCreate writes through the same
-- pointer, so the accessor sees the object that it leaves. It had an accessor before.
abbrev pub object_key : Object → Key
object_key obj = elim (accessor obj) [
  | none ↦ record { namespace = []; name = [] }
  | some acc ↦ record { namespace = acc.namespace; name = acc.name }
]

pub record DeleteOptions : Type 0 where
  pub preconditions : Option Preconditions

-- `options.Preconditions` dereferences the options.
delete_preconditions : Option DeleteOptions → Outcome (Option Preconditions)
delete_preconditions none = panic
delete_preconditions (some o) = ok o.preconditions

module _ {Ctx : Type 0} (lib : Library Ctx) where
  -- Create, and the create-on-update path of updateOnStore, up to the call of the store.
  unfoldable pub accept_create : Ctx → Object → ValidateObjectFunc Ctx → Outcome Object
  accept_create ctx obj create_validation = do
    acc ← require_meta obj
    let filled = fill_system_fields lib acc obj
    obj' ← lib.before_create (Strategy.create_strategy lib) ctx filled
    validate_object create_validation ctx obj'
    ok obj'

  -- updateOnStore between its calls of Get and Update.
  unfoldable pub accept_update :
      Ctx
      → GoString
      → UpdatedObjectInfo Ctx
      → ValidateObjectUpdateFunc Ctx
      → UpdateStrategy Ctx
      → GroupResource
      → Object
      → Outcome Object
  accept_update ctx name obj_info update_validation strategy gr existing = do
    new_obj ← obj_info.updated_object ctx existing
    check_preconditions existing obj_info.preconditions gr name
    check_resource_version existing new_obj strategy gr
    obj ← lib.before_update strategy ctx new_obj existing
    validate_object_update update_validation ctx obj existing
    ok obj

-- Delete between its calls of Get and Delete.
unfoldable pub accept_delete :
    {Ctx : Type 0}
    → Ctx
    → GoString
    → ValidateObjectFunc Ctx
    → Option DeleteOptions
    → GroupResource
    → Object
    → Outcome (Unit {0})
unfolding delete_preconditions
accept_delete ctx name delete_validation options gr existing = do
  preconditions ← delete_preconditions options
  check_preconditions existing preconditions gr name
  validate_object delete_validation ctx existing
