-- ===== src/Server/Progress.antt =====
-- Every request is answered: how often each handler of pkg/registry/tasks/task/storage.go calls the
-- store.
use simple_api_server.Prelude.{
  ℕ, ◌≤◌, ◌≡◌, subst, sym, Bool, true, not, ◌&&◌, Option, Option-cases, inl, inr, List, GoString,
}
use simple_api_server.Kube.{GroupResource, is_not_found}
use simple_api_server.Kube.Outcome.{Outcome, ok, err, panic}
use simple_api_server.Api.{Object, Task}
use simple_api_server.Rest.{
  Library, UpdateStrategy, UpdatedObjectInfo, ValidateObjectFunc, ValidateObjectUpdateFunc,
}
use simple_api_server.Store.{Key}
use simple_api_server.Store.Calls.{Call}
use simple_api_server.Handler.{done, Order}
use simple_api_server.Handler.Interleaving.{System, interleave}
use simple_api_server.Handler.Progress.{
  EndsIn, Ends, write-Ends, done-Ends, if-Ends, call-Ends, bind-Ends, then-Ends, ends_rules, turns,
  interleave-ends,
}
use simple_api_server.Registry
use simple_api_server.Registry.{create_on_update, update_existing, update_on_store, finish_list}
use simple_api_server.Registry.Checks.{key_from_context, ListOptions}
use simple_api_server.Registry.Accept.{DeleteOptions, accept_delete}
use simple_api_server.Strategy
use simple_api_server.StatusStrategy
use simple_api_server.Server.{
  Storage, rest_storage, status_storage, Request, get, list, create, update, delete, watch,
  Response, find, route, serve, ApiGroupInfo,
}

module _ {Ctx : Type 0} (lib : Library Ctx) where
  create_on_update-Ends :
      (ctx : Ctx) (key : Key) (obj_info : UpdatedObjectInfo Ctx) (cv : ValidateObjectFunc Ctx)
      → Ends 1 (create_on_update lib ctx key obj_info cv)
  unfolding create_on_update
  create_on_update-Ends ctx key obj_info cv = search ends_rules

  update_existing-Ends :
      (ctx : Ctx) (name : GoString) (key : Key) (obj_info : UpdatedObjectInfo Ctx)
      (uv : ValidateObjectUpdateFunc Ctx) (strategy : UpdateStrategy Ctx) (gr : GroupResource)
      (existing : Object)
      → Ends 1 (update_existing lib ctx name key obj_info uv strategy gr existing)
  unfolding update_existing
  update_existing-Ends ctx name key obj_info uv strategy gr existing = search ends_rules depth 8

  update_on_store-Ends :
      (ctx : Ctx) (name : GoString) (obj_info : UpdatedObjectInfo Ctx) (cv : ValidateObjectFunc Ctx)
      (uv : ValidateObjectUpdateFunc Ctx) (force : Bool) (strategy : UpdateStrategy Ctx)
      (gr : GroupResource)
      → Ends 2 (update_on_store lib ctx name obj_info cv uv force strategy gr)
  unfolding update_on_store
  update_on_store-Ends ctx name obj_info cv uv force strategy gr =
      bind-Ends 2 (key_from_context lib ctx name strategy.namespace_scoped gr) _ (λ key.
        call-Ends 1 _ _ (elim [
          | ok obj ↦ update_existing-Ends ctx name key obj_info uv strategy gr obj
          | err e ↦
              if-Ends 1 (is_not_found e) _ _
                (if-Ends 1 (not force && not Strategy.allow_create_on_update) _ _
                  (done-Ends 1 (err e)) (create_on_update-Ends ctx key obj_info cv))
                (done-Ends 1 (err e))
          | panic ↦ done-Ends 1 panic
        ]))

  module _ (gr : GroupResource) where
    get-Ends : (ctx : Ctx) (name : GoString) → Ends 2 (Registry.get lib gr ctx name)
    unfolding Registry.get
    get-Ends ctx name = search ends_rules

    get_status-Ends : (ctx : Ctx) (name : GoString) → Ends 2 (Registry.get_status lib gr ctx name)
    unfolding Registry.get_status
    get_status-Ends ctx name = search ends_rules

    finish_list-Ends : (l : List Task × ℕ) → Ends 1 (finish_list l)
    unfolding finish_list
    finish_list-Ends l = search ends_rules

    list-handler-Ends :
        (ctx : Ctx) (options : Option ListOptions) → Ends 2 (Registry.list lib gr ctx options)
    unfolding Registry.list
    list-handler-Ends ctx options = search (ends_rules, finish_list-Ends) depth 8

    create-Ends :
        (ctx : Ctx) (obj : Object) (cv : ValidateObjectFunc Ctx)
        → Ends 2 (Registry.create lib gr ctx obj cv)
    unfolding Registry.create
    create-Ends ctx obj cv = search ends_rules

    delete-Ends :
        (ctx : Ctx) (name : GoString) (dv : ValidateObjectFunc Ctx) (options : Option DeleteOptions)
        → Ends 2 (Registry.delete lib gr ctx name dv options)
    unfolding Registry.delete
    delete-Ends ctx name dv options =
        bind-Ends 2 (key_from_context lib ctx name Strategy.namespace_scoped gr) _ λ key.
          call-Ends 1 (Call.get key) _ λ r. bind-Ends 1 r _ λ existing.
            bind-Ends 1 (accept_delete ctx name dv options gr existing) _
              λ _. write-Ends 0 (Call.delete key) (λ o. (o, true))

  route-Ends : (storage : Storage) (request : Request Ctx) → Ends 2 (route lib storage request)
  unfolding route Registry.update Registry.update_status
  route-Ends (rest_storage gr) (get ctx name) =
      then-Ends 2 (Registry.get lib gr ctx name) _ (get-Ends gr ctx name)
  route-Ends (rest_storage gr) (list ctx options) =
      then-Ends 2 (Registry.list lib gr ctx options) _ (list-handler-Ends gr ctx options)
  route-Ends (rest_storage gr) (create ctx obj cv) =
      then-Ends 2 (Registry.create lib gr ctx obj cv) _ (create-Ends gr ctx obj cv)
  route-Ends (rest_storage gr) (update ctx name info cv uv force) =
      then-Ends 2 (Registry.update lib gr ctx name info cv uv force) _
        (update_on_store-Ends ctx name info cv uv force (Strategy.update_strategy lib) gr)
  route-Ends (rest_storage gr) (delete ctx name dv options) =
      then-Ends 2 (Registry.delete lib gr ctx name dv options) _
        (delete-Ends gr ctx name dv options)
  route-Ends (rest_storage gr) (watch ctx) = done-Ends 2 _
  route-Ends (status_storage gr) (get ctx name) =
      then-Ends 2 (Registry.get_status lib gr ctx name) _ (get_status-Ends gr ctx name)
  route-Ends (status_storage gr) (update ctx name info cv uv force) =
      then-Ends 2 (Registry.update_status lib gr ctx name info cv uv force) _
        (update_on_store-Ends ctx name info cv uv force (StatusStrategy.update_strategy lib) gr)
  route-Ends (status_storage gr) (list ctx options) = done-Ends 2 _
  route-Ends (status_storage gr) (create ctx obj cv) = done-Ends 2 _
  route-Ends (status_storage gr) (delete ctx name dv options) = done-Ends 2 _
  route-Ends (status_storage gr) (watch ctx) = done-Ends 2 _

  serve-Ends :
      (info : ApiGroupInfo) (version path : GoString) (request : Request Ctx)
      → Ends 2 (serve lib info version path request)
  unfolding serve
  serve-Ends info version path request = elim (Option-cases (find version info.storages)) [
    | inl e ↦ rw (e, serve) (done-Ends 2 _)
    | inr (storages, e) ↦ elim (Option-cases (find path storages)) [
      | inl f ↦ rw (e, f, serve) (done-Ends 2 _)
      | inr (storage, f) ↦ rw (e, f, serve) (route-Ends storage request)
    ]
  ]

  -- Every request is answered, whatever other requests do meanwhile: a thread that serves a request
  -- to any resource of the group, in a system of any number of other handlers, has ended with a
  -- result once it has had two turns, that is, once it could make two calls of the store.
  pub serve-interleave :
      (order : Order) (info : ApiGroupInfo) (version path : GoString) (request : Request Ctx)
      (sys : System Response) (i : ℕ) (schedule : List ℕ)
      → sys.threads i ≡ serve lib info version path request
      → 2 ≤ turns i schedule
      → (r : Outcome Response) × ((interleave order schedule sys).threads i ≡ done r)
  serve-interleave order info version path request sys i schedule e enough =
      interleave-ends order schedule sys i 2
        (subst (EndsIn 2) (sym e) (serve-Ends info version path request).within) enough
