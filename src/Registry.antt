-- ===== src/Registry.antt =====
-- REST and StatusREST of pkg/registry/tasks/task/storage.go, as handlers over the shared store.
pub mod Checks
pub mod Accept
pub mod Atomic
pub mod Running
pub mod Update
pub mod Version
pub mod Sequence
pub mod Shape
pub mod Subresources
pub mod Race
pub mod Versions
pub mod Accepted
pub mod ReadBack
pub mod CreateRace
pub mod DeleteRace
pub mod Create
pub mod ListTasks
pub mod Filed
pub mod Missing
pub mod Delete
use simple_api_server.Prelude.{
  ℕ, ltb, Bool, true, false, not, ◌&&◌, List, [], Option, none, some, GoString, text, ◌==◌,
  if◌then◌else◌,
}
use simple_api_server.Kube.{
  GroupResource, ObjectMeta, Preconditions, ApiError, internal_error, field_selectors_unsupported,
  method_not_supported, is_not_found,
}
use simple_api_server.Kube.Outcome.{Outcome, ok, err, panic}
use simple_api_server.Api.{
  Task, TaskList, Object, task, task_list, accessor, set_object_meta, empty_task, empty_type_meta,
}
use simple_api_server.Rest.{
  Library, CreateStrategy, UpdateStrategy, UpdatedObjectInfo, ValidateObjectFunc,
  ValidateObjectUpdateFunc,
}
use simple_api_server.Store.{Key}
use simple_api_server.Store.Calls.{Call}
use simple_api_server.Strategy
use simple_api_server.StatusStrategy
use simple_api_server.Handler.{Handler, done, ◌>>=◌, ◌>>◌, attempt, request}
use Checks.{
  key_from_context, namespace_from_context, ListOptions, has_field_selector, selector_of, list_loop,
  format_rv,
}
use Accept.{object_key, DeleteOptions, accept_create, accept_update, accept_delete}

-- The end of List: the version of the list is the highest of its items, or that of the store.
unfoldable pub finish_list : List Task × ℕ → Handler Object
finish_list (items, max_rv) =
    let answer : ℕ → Handler Object = λ rv. done (
      ok (
        task_list (record {
          type_meta = empty_type_meta;
          resource_version = format_rv rv;
          items = items;
        }))) in
    if max_rv == 0 then Handler.current_resource_version answer else answer max_rv

module _ {Ctx : Type 0} (lib : Library Ctx) where
  -- The create-on-update path of updateOnStore.
  unfoldable pub create_on_update :
      Ctx → Key → UpdatedObjectInfo Ctx → ValidateObjectFunc Ctx → Handler (Object × Bool)
  create_on_update ctx key obj_info create_validation = do
    new_obj ← done (obj_info.updated_object ctx (task empty_task))
    obj ← done (accept_create lib ctx new_obj create_validation)
    created ← request (Call.create key obj)
    done (ok (created, true))

  -- The path of updateOnStore for an object that exists.
  unfoldable pub update_existing :
      Ctx
      → GoString
      → Key
      → UpdatedObjectInfo Ctx
      → ValidateObjectUpdateFunc Ctx
      → UpdateStrategy Ctx
      → GroupResource
      → Object
      → Handler (Object × Bool)
  update_existing ctx name key obj_info update_validation strategy gr existing = do
    obj ← done (accept_update lib ctx name obj_info update_validation strategy gr existing)
    updated ← request (Call.update key obj)
    done (ok (updated, false))

  -- updateOnStore. The createStrategy of both callers is Strategy.
  unfoldable pub update_on_store :
      Ctx
      → GoString
      → UpdatedObjectInfo Ctx
      → ValidateObjectFunc Ctx
      → ValidateObjectUpdateFunc Ctx
      → Bool
      → UpdateStrategy Ctx
      → GroupResource
      → Handler (Object × Bool)
  unfolding create_on_update update_existing
  update_on_store ctx name obj_info create_validation update_validation force strategy gr = do
    key ← done (key_from_context lib ctx name strategy.namespace_scoped gr)
    existing ← attempt (Call.get key)
    elim existing [
      | ok obj ↦ update_existing ctx name key obj_info update_validation strategy gr obj
      | err e ↦
          if is_not_found e
          then if not force && not Strategy.allow_create_on_update
            then done (err e)
            else create_on_update ctx key obj_info create_validation
          else done (err e)
      | panic ↦ done panic
    ]

  module _ (gr : GroupResource) where
    -- (*REST).Get
    unfoldable pub get : Ctx → GoString → Handler Object
    get ctx name = do
      key ← done (key_from_context lib ctx name Strategy.namespace_scoped gr)
      request (Call.get key)

    -- (*StatusREST).Get; NamespaceScoped is that of the Strategy which StatusStrategy embeds.
    unfoldable pub get_status : Ctx → GoString → Handler Object
    get_status ctx name = do
      key ← done (key_from_context lib ctx name Strategy.namespace_scoped gr)
      request (Call.get key)

    -- (*REST).List
    unfoldable pub list : Ctx → Option ListOptions → Handler Object
    unfolding finish_list
    list ctx options =
        if has_field_selector options
        then done (err (internal_error (field_selectors_unsupported gr)))
        else (do
          let ns = namespace_from_context lib ctx Strategy.namespace_scoped
          raw ← Handler.list ns (λ objects. done (ok objects))
          found ← done (list_loop (selector_of lib.everything options) raw [] 0)
          finish_list found)

    -- (*REST).Create
    unfoldable pub create : Ctx → Object → ValidateObjectFunc Ctx → Handler Object
    create ctx obj create_validation = do
      obj' ← done (accept_create lib ctx obj create_validation)
      request (Call.create (object_key obj') obj')

    -- (*REST).Update
    unfoldable pub update :
        Ctx
        → GoString
        → UpdatedObjectInfo Ctx
        → ValidateObjectFunc Ctx
        → ValidateObjectUpdateFunc Ctx
        → Bool
        → Handler (Object × Bool)
    unfolding update_on_store
    update ctx name obj_info create_validation update_validation force =
        update_on_store ctx name obj_info create_validation update_validation force
          (Strategy.update_strategy lib) gr

    -- (*StatusREST).Update
    unfoldable pub update_status :
        Ctx
        → GoString
        → UpdatedObjectInfo Ctx
        → ValidateObjectFunc Ctx
        → ValidateObjectUpdateFunc Ctx
        → Bool
        → Handler (Object × Bool)
    unfolding update_on_store
    update_status ctx name obj_info create_validation update_validation force =
        update_on_store ctx name obj_info create_validation update_validation force
          (StatusStrategy.update_strategy lib) gr

    -- (*REST).Delete
    unfoldable pub delete :
        Ctx → GoString → ValidateObjectFunc Ctx → Option DeleteOptions → Handler (Object × Bool)
    delete ctx name delete_validation options = do
      key ← done (key_from_context lib ctx name Strategy.namespace_scoped gr)
      existing ← request (Call.get key)
      done (accept_delete ctx name delete_validation options gr existing)
      deleted ← request (Call.delete key)
      done (ok (deleted, true))

    -- (*REST).Watch
    abbrev pub watch : Ctx → Handler Object
    watch ctx = done (err (method_not_supported gr (text "watch")))
