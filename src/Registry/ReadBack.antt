-- ===== src/Registry/ReadBack.antt =====
-- What a Get answers after a write: (*REST).Get and (*StatusREST).Get of
-- pkg/registry/tasks/task/storage.go.
use simple_api_server.Prelude.{
  ◌≡◌, ◌⊎◌, sym, subst, ap, ◌∙◌, Bool, inl, inr, true, none, some, some-injective, GoString,
}
use simple_api_server.Kube.{GroupResource, ObjectMeta, not_found}
use simple_api_server.Kube.Outcome.{Outcome, ok, err}
use simple_api_server.Api.{Task, Object, task, accessor}
use simple_api_server.Rest.{
  Library, UpdatedObjectInfo, ValidateObjectFunc, ValidateObjectUpdateFunc,
}
use simple_api_server.Rest.Laws.{LibraryLaws}
use simple_api_server.Strategy
use simple_api_server.StatusStrategy
use simple_api_server.Store
use simple_api_server.Store.{Key, Store, lookup}
use simple_api_server.Store.Items.{Unique}
use simple_api_server.Store.Calls.{perform}
use simple_api_server.Handler.{Order, run}
use simple_api_server.Registry
use simple_api_server.Registry.Checks.{key_from_context}
use simple_api_server.Registry.Accept.{DeleteOptions, object_key}
use simple_api_server.Registry.Create.{create_lem}
use simple_api_server.Registry.Filed.{key_from_context-eq-ok}
use simple_api_server.Registry.Delete.{delete_lem}
use simple_api_server.Registry.Update.{update_on_store-eq-ok}

module _ {Ctx : Type 0} (lib : Library Ctx) (order : Order) (gr : GroupResource) (ctx : Ctx)
    (name : GoString) where
  -- What a Get of the Task and one of its status answer, which both leave the store as it is.
  abbrev pub Answered : Outcome Object → Store → Type 0
  Answered r t =
      (run order (Registry.get lib gr ctx name) t ≡ (r, t))
      × (run order (Registry.get_status lib gr ctx name) t ≡ (r, t))

  module _ (key : Key) (addressed : key_from_context lib ctx name true gr ≡ ok key) where
    request_key : key ≡ record { namespace = (lib.namespace_from ctx).0; name = name }
    request_key = key_from_context-eq-ok lib ctx name gr key addressed

    run-get-found : (t : Store) (obj : Object) → lookup key t.items ≡ some obj → Answered (ok obj) t
    unfolding Registry.get Registry.get_status run perform Store.get
    run-get-found t obj e = (
      rw (addressed, Registry.get) (rw (e, Store.get, perform, run)),
      rw (addressed, Registry.get_status) (rw (e, Store.get, perform, run)),
    )

    run-get-missing :
        (t : Store) → lookup key t.items ≡ none → Answered (err (not_found t.gr key.name)) t
    unfolding Registry.get Registry.get_status run perform Store.get
    run-get-missing t e = (
      rw (addressed, Registry.get) (rw (e, Store.get, perform, run)),
      rw (addressed, Registry.get_status) (rw (e, Store.get, perform, run)),
    )

    -- After an update of a stored object, or of its status, that succeeded, a Get and a Get of the
    -- status answer with the object that the update returned.
    pub get-update :
        (obj_info : UpdatedObjectInfo Ctx) (cv : ValidateObjectFunc Ctx)
        (uv : ValidateObjectUpdateFunc Ctx) (force created : Bool) (s t : Store)
        (existing obj : Object)
        → lookup key s.items ≡ some existing
        → (run order (Registry.update lib gr ctx name obj_info cv uv force) s
            ≡ (ok (obj, created), t))
          ⊎ (run order (Registry.update_status lib gr ctx name obj_info cv uv force) s
              ≡ (ok (obj, created), t))
        → Answered (ok obj) t
    unfolding Registry.update Registry.update_status
    get-update obj_info cv uv force created s t existing obj found (inl h) =
        let (_, _, w, _) =
          update_on_store-eq-ok lib order ctx name obj_info uv (Strategy.update_strategy lib) gr cv
            force key existing s t obj created addressed found h in
        run-get-found t obj w.at_key
    get-update obj_info cv uv force created s t existing obj found (inr h) =
        let (_, _, w, _) =
          update_on_store-eq-ok lib order ctx name obj_info uv (StatusStrategy.update_strategy lib)
            gr cv force key existing s t obj created addressed found h in
        run-get-found t obj w.at_key

    -- With a library that behaves as documented: after a Create that succeeded, a Get of the name of the
    -- Task and a Get of its status, in the namespace of the same context, answer with the Task that
    -- Create returned.
    pub get-create :
        LibraryLaws lib
        → (cv : ValidateObjectFunc Ctx) (sent : Task) (obj : Object) (m : ObjectMeta) (s t : Store)
        → run order (Registry.create lib gr ctx (task sent) cv) s ≡ (ok obj, t)
        → accessor obj ≡ some m
        → m.name ≡ name
        → Answered (ok obj) t
    get-create laws cv sent obj m s t h em named =
        let (stored, new, same, _, at_key, _) =
          create_lem lib order gr ctx cv laws sent obj s t h in
        let meta : stored.object_meta ≡ m = some-injective (ap accessor (sym same) ∙ em) in
        let its_name : stored.object_meta.name ≡ name = ap (λ x. x.name) meta ∙ named in
        let its_key : object_key obj ≡ key =
          ap object_key same
          ∙ (λ i. record { namespace = new.in_namespace i; name = its_name i })
          ∙ sym request_key in
        run-get-found t obj (subst (λ k. lookup k t.items ≡ some obj) its_key at_key)

    -- After a Delete that succeeded, a Get and a Get of the status answer with NotFound. The store is assumed to hold no key
    -- twice, the object to have metadata.
    pub get-delete :
        (dv : ValidateObjectFunc Ctx) (options : DeleteOptions) (s t : Store) (obj : Object)
        (deleted : Bool) (m : ObjectMeta)
        → Unique s.items
        → run order (Registry.delete lib gr ctx name dv (some options)) s ≡ (ok (obj, deleted), t)
        → accessor obj ≡ some m
        → Answered (err (not_found t.gr name)) t
    get-delete dv options s t obj deleted m u h em =
        let (_, _, gone, _, _) =
          delete_lem lib order gr ctx name key dv options addressed s t obj deleted m u h em in
        subst (λ k. Answered (err (not_found t.gr k.name)) t) request_key (run-get-missing t gone)
