-- ===== src/Registry/Missing.antt =====
-- Updates of what is not there: the create-on-update path of updateOnStore, in
-- pkg/registry/tasks/task/storage.go.
use simple_api_server.Prelude.{
  ◌≡◌, refl, sym, subst, ◌∙◌, Bool, true, false, none, GoString, arith, some, if◌then◌else◌,
}
use simple_api_server.Kube.{GroupResource, not_found}
use simple_api_server.Kube.Outcome.{Outcome, ok, err, panic, ok-injective}
use simple_api_server.Api.{Task, Object, task, empty_task}
use simple_api_server.Rest.{
  Library, UpdateStrategy, UpdatedObjectInfo, ValidateObjectFunc, ValidateObjectUpdateFunc,
}
use simple_api_server.Rest.Laws.{LibraryLaws}
use simple_api_server.Store
use simple_api_server.Store.{Key, Store, lookup}
use simple_api_server.Store.Writes.{create-Wrote}
use simple_api_server.Store.Calls.{perform}
use simple_api_server.Handler.{Order, run, done, ◌>>=◌}
use simple_api_server.Strategy
use simple_api_server.StatusStrategy
use simple_api_server.Registry
use simple_api_server.Registry.{create_on_update, update_on_store}
use simple_api_server.Registry.Running.{run-bind-eq-ok}
use simple_api_server.Registry.Checks.{key_from_context}
use simple_api_server.Registry.Accept.{accept_create}
use simple_api_server.Registry.Create.{
  NewTask, accept_create-Created, Created-NewTask, stored-NewTask,
}

created-eq-ok :
    (order : Order) (r : Outcome Object) (s t : Store) (obj : Object) (created : Bool)
    → run {A = Object × Bool} order (done r >>= λ o. done (ok (o, true))) s ≡ (ok (obj, created), t)
    → (created ≡ true) × (◌≡◌ {A = Outcome Object × Store} (r, s) (ok obj, t))
unfolding run
created-eq-ok order (ok o) s t obj created h = (ground arith, ground arith)
created-eq-ok order (err e) s t obj created h = cc
created-eq-ok order panic s t obj created h = cc

module _ {Ctx : Type 0} (lib : Library Ctx) (order : Order) (gr : GroupResource) (ctx : Ctx)
    (name : GoString) (key : Key) (s : Store) (obj_info : UpdatedObjectInfo Ctx)
    (cv : ValidateObjectFunc Ctx) (uv : ValidateObjectUpdateFunc Ctx)
    (addressed : key_from_context lib ctx name true gr ≡ ok key)
    (missing : lookup key s.items ≡ none) where
  run-missing :
      (force : Bool) (strategy : UpdateStrategy Ctx)
      → strategy.namespace_scoped ≡ true
      → run order (update_on_store lib ctx name obj_info cv uv force strategy gr) s ≡ (
          if force
          then run order (create_on_update lib ctx key obj_info cv) s
          else (err (not_found s.gr key.name), s))
  unfolding update_on_store run perform Store.get
  run-missing true strategy scoped =
      rw (scoped, addressed, update_on_store, run) (rw (missing, Store.get, perform, run))
  run-missing false strategy scoped =
      rw (scoped, addressed, update_on_store, run) (rw (missing, Store.get, perform, run))

  created-NewTask :
      LibraryLaws lib
      → (sent : Task) (obj : Object) (created : Bool) (t : Store)
      → obj_info.updated_object ctx (task empty_task) ≡ ok (task sent)
      → run order (create_on_update lib ctx key obj_info cv) s ≡ (ok (obj, created), t)
      → (created ≡ true)
        × (lookup key t.items ≡ some obj)
        × (stored : Task) × NewTask lib ctx sent stored
        × (obj ≡ task stored)
  unfolding create_on_update run perform
  created-NewTask laws sent obj created t sends h =
      let (o, e₁, h₁) =
        run-bind-eq-ok order _ s (obj_info.updated_object ctx (task empty_task)) h in
      let same : o ≡ task sent = ok-injective (sym e₁ ∙ sends) in
      let (accepted, e₂, h₂) = run-bind-eq-ok order _ s (accept_create lib ctx o cv) h₁ in
      let accepts : accept_create lib ctx (task sent) cv ≡ ok accepted =
        subst (λ o. accept_create lib ctx o cv ≡ ok accepted) same e₂ in
      let filled : Task = record sent {
        object_meta = lib.fill_object_meta_system_fields sent.object_meta;
      } in
      let (a, ea, new) =
        Created-NewTask lib order gr ctx cv sent filled accepted refl
          (accept_create-Created lib order gr ctx cv laws sent accepted accepts) in
      let (by_create, h₃) =
        created-eq-ok order (Store.create key accepted s).0 (Store.create key accepted s).1 t obj
          created h₂ in
      let w =
        create-Wrote key (task a) obj s t (subst (λ o. Store.create key o s ≡ (ok obj, t)) ea h₃) in
      let (stored, new', is, _) = stored-NewTask lib order gr ctx cv key sent a obj s t new w in
      (by_create, w.at_key, stored, new', is)

  -- An update of a Task that is not stored, on the resource or on its status, is answered with
  -- NotFound and changes nothing, unless the caller forces creation.
  pub update_missing :
      (run order (Registry.update lib gr ctx name obj_info cv uv false) s
        ≡ (err (not_found s.gr key.name), s))
      × (run order (Registry.update_status lib gr ctx name obj_info cv uv false) s
          ≡ (err (not_found s.gr key.name), s))
  unfolding Registry.update Registry.update_status
  update_missing = (
    run-missing false (Strategy.update_strategy lib) refl,
    run-missing false (StatusStrategy.update_strategy lib) refl,
  )

  -- With a library that behaves as documented: a forced update of the status of a Task that is not
  -- stored, if it succeeds, has created a Task under the key of the request, with the spec that was
  -- sent and an empty status, whatever status was sent.
  pub update_status-creates :
      LibraryLaws lib
      → (sent : Task) (obj : Object) (created : Bool) (t : Store)
      → obj_info.updated_object ctx (task empty_task) ≡ ok (task sent)
      → run order (Registry.update_status lib gr ctx name obj_info cv uv true) s
        ≡ (ok (obj, created), t)
      → (created ≡ true)
        × (lookup key t.items ≡ some obj)
        × (stored : Task) × NewTask lib ctx sent stored
        × (obj ≡ task stored)
  unfolding Registry.update_status
  update_status-creates laws sent obj created t sends h =
      created-NewTask laws sent obj created t sends
        (sym (run-missing true (StatusStrategy.update_strategy lib) refl) ∙ h)
