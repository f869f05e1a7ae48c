-- ===== src/Registry/Version.antt =====
-- Optimistic concurrency: an update is refused unless it carries the version of what it replaces.
use simple_api_server.Prelude.{
  ◌≡◌, ◌≢◌, refl, ap, ◌∙◌, Bool, true, false, none, some, [], GoString, str_eq, str_eq_iff,
  Bool-cases, inl, inr, arith,
}
use simple_api_server.Kube.{
  GroupResource, ObjectMeta, Cause, conflict, resource_version_required, object_modified,
}
use simple_api_server.Kube.Outcome.{ok, err}
use simple_api_server.Api.{Object, accessor}
use simple_api_server.Rest.{
  Library, UpdateStrategy, UpdatedObjectInfo, ValidateObjectFunc, ValidateObjectUpdateFunc,
}
use simple_api_server.Strategy
use simple_api_server.StatusStrategy
use simple_api_server.Store.{Key, Store, lookup}
use simple_api_server.Handler.{Order, run}
use simple_api_server.Registry
use simple_api_server.Registry.{update_on_store}
use simple_api_server.Registry.Checks.{
  key_from_context, check_preconditions, check_resource_version,
}
use simple_api_server.Registry.Accept.{accept_update}
use simple_api_server.Registry.Update.{run-update_on_store, write_back}

pub check_resource_version-eq-ok :
    {Ctx : Type 0} (existing sent : Object) (strategy : UpdateStrategy Ctx) (gr : GroupResource)
    (m n : ObjectMeta)
    → strategy.allow_unconditional_update ≡ false
    → accessor existing ≡ some m
    → accessor sent ≡ some n
    → check_resource_version existing sent strategy gr ≡ ok tt
    → (n.resource_version ≡ m.resource_version) × (n.resource_version ≢ [])
unfolding check_resource_version
check_resource_version-eq-ok existing sent strategy gr m n fixed em en h =
    ground
      (arith, str_eq_iff n.resource_version m.resource_version, str_eq_iff n.resource_version [])

check_resource_version_stale :
    {Ctx : Type 0} (existing sent : Object) (strategy : UpdateStrategy Ctx) (gr : GroupResource)
    (m n : ObjectMeta)
    → strategy.allow_unconditional_update ≡ false
    → accessor existing ≡ some m
    → accessor sent ≡ some n
    → n.resource_version ≢ m.resource_version
    → (c : Cause) × (check_resource_version existing sent strategy gr ≡ err (conflict gr n.name c))
unfolding check_resource_version
check_resource_version_stale existing sent strategy gr m n fixed em en stale =
    elim (Bool-cases (str_eq n.resource_version [])) [
      | inl e ↦ (resource_version_required, ground arith)
      | inr e ↦ (object_modified, ground (arith, str_eq_iff n.resource_version m.resource_version))
    ]

module _ {Ctx : Type 0} (lib : Library Ctx) (order : Order) (gr : GroupResource) (ctx : Ctx)
    (name : GoString) (key : Key) (s : Store) (existing sent : Object) (m n : ObjectMeta)
    (addressed : key_from_context lib ctx name true gr ≡ ok key)
    (found : lookup key s.items ≡ some existing) (em : accessor existing ≡ some m)
    (en : accessor sent ≡ some n) (stale : n.resource_version ≢ m.resource_version)
    (obj_info : UpdatedObjectInfo Ctx) (sends : obj_info.updated_object ctx existing ≡ ok sent)
    (unconditional : obj_info.preconditions ≡ none) (cv : ValidateObjectFunc Ctx)
    (uv : ValidateObjectUpdateFunc Ctx) (force : Bool) where
  pub stale-Conflict :
      (strategy : UpdateStrategy Ctx)
      → strategy.allow_unconditional_update ≡ false
      → strategy.namespace_scoped ≡ true
      → (c : Cause) × (run order (update_on_store lib ctx name obj_info cv uv force strategy gr) s
          ≡ (err (conflict gr n.name c), s))
  unfolding accept_update check_preconditions
  stale-Conflict strategy fixed scoped =
      let (c, e) = check_resource_version_stale existing sent strategy gr m n fixed em en stale in
      let refused : accept_update lib ctx name obj_info uv strategy gr existing
          ≡ err (conflict gr n.name c) =
        rw (sends, accept_update) (rw unconditional (rw e)) in
      (
        c,
        run-update_on_store lib order ctx name obj_info uv strategy gr cv force key existing s
              (rw scoped addressed) found
            ∙ ap (write_back key s) refused,
      )

  -- A write that carries another version than the stored object, on the resource or on its status, is answered with Conflict and leaves the store as it was. This is for a request with no
  -- precondition, whatever the admission hooks say, and with forceAllowCreate too.
  pub update_stale :
      ((c : Cause) × (run order (Registry.update lib gr ctx name obj_info cv uv force) s
          ≡ (err (conflict gr n.name c), s)))
      × ((c : Cause) × (run order (Registry.update_status lib gr ctx name obj_info cv uv force) s
            ≡ (err (conflict gr n.name c), s)))
  unfolding Registry.update Registry.update_status
  update_stale = (
    stale-Conflict (Strategy.update_strategy lib) refl refl,
    stale-Conflict (StatusStrategy.update_strategy lib) refl refl,
  )
