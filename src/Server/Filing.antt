-- ===== src/Server/Filing.antt =====
-- What the store of a server holds: the handlers of pkg/registry/tasks/task/storage.go, running at the
-- same time.
use simple_api_server.Prelude.{
  ℕ, ◌≡◌, refl, sym, subst, Bool, not, ◌&&◌, [], Option, Option-cases, inl, inr, List, GoString,
  true, false,
}
use simple_api_server.Kube.{GroupResource, is_not_found}
use simple_api_server.Kube.Outcome.{Outcome, ok, err, panic}
use simple_api_server.Api.{Object, Task}
use simple_api_server.Rest.{
  Library, UpdateStrategy, UpdatedObjectInfo, ValidateObjectFunc, ValidateObjectUpdateFunc,
}
use simple_api_server.Rest.Laws.{LibraryLaws}
use simple_api_server.Store.{Key, lookup}
use simple_api_server.Handler.{done, ◌>>=◌, Order}
use simple_api_server.Handler.Interleaving.{interleave}
use simple_api_server.Handler.Keeping.{
  Holds, Keeps, done-Keeps, if-Keeps, get-Keeps, create-Keeps, update-Keeps, delete-Keeps,
  list-Keeps, current-Keeps, bind-Keeps, then-Keeps,
}
use simple_api_server.Handler.Held.{interleave-Holds}
use simple_api_server.Registry
use simple_api_server.Registry.{create_on_update, update_existing, update_on_store, finish_list}
use simple_api_server.Registry.Checks.{
  key_from_context, ListOptions, has_field_selector, selector_of, list_loop, namespace_from_context,
}
use simple_api_server.Registry.Accept.{
  DeleteOptions, accept_create, accept_update, accept_delete, object_key,
}
use simple_api_server.Registry.Filed.{
  IsFiled, stamped-IsFiled, accept_create-IsFiled, object_key-IsFiled, key_from_context-eq-ok,
  Files, strategy-Files, status_strategy-Files,
}
use simple_api_server.Strategy
use simple_api_server.StatusStrategy
use simple_api_server.Server.{
  Storage, rest_storage, status_storage, Request, get, list, create, update, delete, watch, find,
  route, serve, ApiGroupInfo, tasks_group,
}
use simple_api_server.Server.Serving.{started}

module _ {Ctx : Type 0} (lib : Library Ctx) (laws : LibraryLaws lib) where
  answer-Keeps :
      {A : Type 0} (r : Outcome Object) (g : Object → A)
      → Keeps IsFiled (done r >>= λ o. done (ok (g o)))
  answer-Keeps r g = bind-Keeps IsFiled r _ (λ o _. done-Keeps IsFiled (ok (g o)))

  create_on_update-Keeps :
      (ctx : Ctx) (name : GoString) (key : Key) (obj_info : UpdatedObjectInfo Ctx)
      (cv : ValidateObjectFunc Ctx)
      → key ≡ record { namespace = (lib.namespace_from ctx).0; name = name }
      → Keeps IsFiled (create_on_update lib ctx key obj_info cv)
  unfolding create_on_update
  create_on_update-Keeps ctx name key obj_info cv k =
      bind-Keeps IsFiled (obj_info.updated_object ctx _) _ λ new _.
        bind-Keeps IsFiled (accept_create lib ctx new cv) _ λ obj e.
          create-Keeps IsFiled key obj _
            (subst (λ j. IsFiled j obj) (sym k)
              (accept_create-IsFiled lib laws ctx new obj cv name e))
            (λ r. answer-Keeps r (λ o. (o, true)))

  update_on_store-Keeps :
      (ctx : Ctx) (name : GoString) (obj_info : UpdatedObjectInfo Ctx) (cv : ValidateObjectFunc Ctx)
      (uv : ValidateObjectUpdateFunc Ctx) (force : Bool) (strategy : UpdateStrategy Ctx)
      (gr : GroupResource)
      → strategy.namespace_scoped ≡ true
      → Files lib laws ctx strategy
      → Keeps IsFiled (update_on_store lib ctx name obj_info cv uv force strategy gr)
  unfolding update_on_store update_existing
  update_on_store-Keeps ctx name obj_info cv uv force strategy gr scoped files =
      bind-Keeps IsFiled (key_from_context lib ctx name strategy.namespace_scoped gr) _ (λ key k.
        get-Keeps IsFiled key _ (elim [
          | ok existing ↦ λ filed.
              bind-Keeps IsFiled (accept_update lib ctx name obj_info uv strategy gr existing) _
                λ obj e.
                  update-Keeps IsFiled key obj _
                    (files name obj_info uv gr key existing obj (filed existing refl) e)
                    (λ r. answer-Keeps r (λ o. (o, false)))
          | err e ↦ λ _.
              if-Keeps IsFiled (is_not_found e) _ _
                (if-Keeps IsFiled (not force && not Strategy.allow_create_on_update) _ _
                  (done-Keeps IsFiled (err e))
                  (create_on_update-Keeps ctx name key obj_info cv (
                    key_from_context-eq-ok lib ctx name gr key
                      (subst (λ b. key_from_context lib ctx name b gr ≡ ok key) scoped k))))
                (done-Keeps IsFiled (err e))
          | panic ↦ λ _. done-Keeps IsFiled panic
        ]))

  module _ (gr : GroupResource) where
    get-handler-Keeps : (ctx : Ctx) (name : GoString) → Keeps IsFiled (Registry.get lib gr ctx name)
    unfolding Registry.get
    get-handler-Keeps ctx name =
        bind-Keeps IsFiled (key_from_context lib ctx name Strategy.namespace_scoped gr) _
          λ key _. get-Keeps IsFiled key _ (λ r _. done-Keeps IsFiled r)

    get_status-Keeps :
        (ctx : Ctx) (name : GoString) → Keeps IsFiled (Registry.get_status lib gr ctx name)
    unfolding Registry.get_status
    get_status-Keeps ctx name =
        bind-Keeps IsFiled (key_from_context lib ctx name Strategy.namespace_scoped gr) _
          λ key _. get-Keeps IsFiled key _ (λ r _. done-Keeps IsFiled r)

    finish_list-Keeps : (l : List Task × ℕ) → Keeps IsFiled (finish_list l)
    unfolding finish_list
    finish_list-Keeps l =
        if-Keeps IsFiled _ _ _ (current-Keeps IsFiled _ (λ v. done-Keeps IsFiled _))
          (done-Keeps IsFiled _)

    list-handler-Keeps :
        (ctx : Ctx) (options : Option ListOptions)
        → Keeps IsFiled (Registry.list lib gr ctx options)
    unfolding Registry.list
    list-handler-Keeps ctx options =
        if-Keeps IsFiled (has_field_selector options) _ _ (done-Keeps IsFiled _) (
          list-Keeps IsFiled (namespace_from_context lib ctx Strategy.namespace_scoped) _ λ raw.
            bind-Keeps IsFiled (list_loop (selector_of lib.everything options) raw [] 0) _
              λ found _. finish_list-Keeps found)

    create-handler-Keeps :
        (ctx : Ctx) (obj : Object) (cv : ValidateObjectFunc Ctx)
        → Keeps IsFiled (Registry.create lib gr ctx obj cv)
    unfolding Registry.create
    create-handler-Keeps ctx obj cv = bind-Keeps IsFiled (accept_create lib ctx obj cv) _ λ obj' e.
        create-Keeps IsFiled (object_key obj') obj' _
          (object_key-IsFiled obj' _ (accept_create-IsFiled lib laws ctx obj obj' cv [] e))
          (λ r. done-Keeps IsFiled r)

    delete-handler-Keeps :
        (ctx : Ctx) (name : GoString) (dv : ValidateObjectFunc Ctx) (options : Option DeleteOptions)
        → Keeps IsFiled (Registry.delete lib gr ctx name dv options)
    unfolding Registry.delete
    delete-handler-Keeps ctx name dv options =
        bind-Keeps IsFiled (key_from_context lib ctx name Strategy.namespace_scoped gr) _ λ key _.
          get-Keeps IsFiled key _ λ r _. bind-Keeps IsFiled r _ λ existing _.
            bind-Keeps IsFiled (accept_delete ctx name dv options gr existing) _
              λ _ _. delete-Keeps IsFiled key _ (λ q. answer-Keeps q (λ o. (o, true)))

  route-Keeps :
      (storage : Storage) (request : Request Ctx) → Keeps IsFiled (route lib storage request)
  unfolding route Registry.update Registry.update_status
  route-Keeps (rest_storage gr) (get ctx name) =
      then-Keeps IsFiled (Registry.get lib gr ctx name) _ (get-handler-Keeps gr ctx name)
  route-Keeps (rest_storage gr) (list ctx options) =
      then-Keeps IsFiled (Registry.list lib gr ctx options) _ (list-handler-Keeps gr ctx options)
  route-Keeps (rest_storage gr) (create ctx obj cv) =
      then-Keeps IsFiled (Registry.create lib gr ctx obj cv) _ (create-handler-Keeps gr ctx obj cv)
  route-Keeps (rest_storage gr) (update ctx name info cv uv force) =
      then-Keeps IsFiled (Registry.update lib gr ctx name info cv uv force) _ (
        update_on_store-Keeps ctx name info cv uv force (Strategy.update_strategy lib) gr refl
          (strategy-Files lib laws ctx))
  route-Keeps (rest_storage gr) (delete ctx name dv options) =
      then-Keeps IsFiled (Registry.delete lib gr ctx name dv options) _
        (delete-handler-Keeps gr ctx name dv options)
  route-Keeps (rest_storage gr) (watch ctx) = done-Keeps IsFiled _
  route-Keeps (status_storage gr) (get ctx name) =
      then-Keeps IsFiled (Registry.get_status lib gr ctx name) _ (get_status-Keeps gr ctx name)
  route-Keeps (status_storage gr) (update ctx name info cv uv force) =
      then-Keeps IsFiled (Registry.update_status lib gr ctx name info cv uv force) _ (
        update_on_store-Keeps ctx name info cv uv force (StatusStrategy.update_strategy lib) gr refl
          (status_strategy-Files lib laws ctx))
  route-Keeps (status_storage gr) (list ctx options) = done-Keeps IsFiled _
  route-Keeps (status_storage gr) (create ctx obj cv) = done-Keeps IsFiled _
  route-Keeps (status_storage gr) (delete ctx name dv options) = done-Keeps IsFiled _
  route-Keeps (status_storage gr) (watch ctx) = done-Keeps IsFiled _

  serve-Keeps :
      (info : ApiGroupInfo) (version path : GoString) (request : Request Ctx)
      → Keeps IsFiled (serve lib info version path request)
  unfolding serve
  serve-Keeps info version path request = elim (Option-cases (find version info.storages)) [
    | inl e ↦ rw (e, serve) (done-Keeps IsFiled _)
    | inr (storages, e) ↦ elim (Option-cases (find path storages)) [
      | inl f ↦ rw (e, serve) (rw (f) (done-Keeps IsFiled _))
      | inr (storage, f) ↦ rw (e, serve) (rw (f) (route-Keeps storage request))
    ]
  ]

  -- With a library that behaves as documented, from the start of the server, whatever requests reach
  -- whatever resource of the group, and however their calls of the store interleave: the store holds
  -- Tasks only, each with an image and under a key in its own namespace, and no key twice.
  pub started-IsFiled :
      (order : Order) (requests : ℕ → GoString × GoString × Request Ctx) (schedule : List ℕ)
      → Holds IsFiled (interleave order schedule (started lib order requests)).store
  unfolding tasks_group lookup
  started-IsFiled order requests schedule =
      interleave-Holds IsFiled stamped-IsFiled order schedule (started lib order requests)
        (record { unique = tt; each = λ k o e. cc })
        (λ i.
          let (version, path, request) = requests i in serve-Keeps tasks_group version path request)
