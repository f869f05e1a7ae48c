-- ===== src/Registry/Atomic.antt =====
-- A request that does not succeed changes no object: rules for handlers, and the handlers.
use simple_api_server.Prelude.{
  ℕ, ◌≡◌, refl, ap, ◌∙◌, ◌⊎◌, inl, inr, Bool, true, false, not, ◌&&◌, Option, List, GoString,
  if◌then◌else◌,
}
use simple_api_server.Kube.{GroupResource, is_not_found}
use simple_api_server.Kube.Outcome.{Outcome, ok, err, panic}
use simple_api_server.Api.{Object}
use simple_api_server.Rest.{
  Library, UpdateStrategy, UpdatedObjectInfo, ValidateObjectFunc, ValidateObjectUpdateFunc,
}
use simple_api_server.Store.{Key, Store}
use simple_api_server.Store.Calls.{Call, perform}
use simple_api_server.Store.Refinement.Traces.{perform_atomic}
use simple_api_server.Handler.{Handler, done, call, Order, run, ◌>>=◌, request}
use simple_api_server.Registry
use simple_api_server.Registry.{create_on_update, update_existing, update_on_store}
use simple_api_server.Registry.Checks.{key_from_context, ListOptions}
use simple_api_server.Registry.Accept.{DeleteOptions, accept_delete}
use simple_api_server.Strategy
use simple_api_server.StatusStrategy

-- With the store to itself, the handler leaves every object as it is, or it succeeds.
pub record IsAtomic {A : Type 0} (h : Handler A) : Type 0 where
  pub keeps :
      (order : Order) (s : Store)
      → ((run order h s).1.items ≡ s.items) ⊎ ((a : A) × ((run order h s).0 ≡ ok a))

module _ {A : Type 0} where
  done-IsAtomic : (r : Outcome A) → IsAtomic (done r)
  unfolding run
  done-IsAtomic r = record { keeps = λ order s. inl refl }

  if-IsAtomic :
      (b : Bool) (g h : Handler A) → IsAtomic g → IsAtomic h → IsAtomic (if b then g else h)
  if-IsAtomic true g h p q = p
  if-IsAtomic false g h p q = q

  -- A read, and whatever follows it.
  get-IsAtomic :
      (k : Key) (f : Outcome Object → Handler A)
      → ((r : Outcome Object) → IsAtomic (f r))
      → IsAtomic (call (Call.get k) f)
  unfolding run perform
  get-IsAtomic k f p = record { keeps = λ order s. (p (perform (Call.get k) s).0).keeps order s }

  list-IsAtomic :
      (ns : GoString) (f : List Object → Handler A)
      → ((l : List Object) → IsAtomic (f l))
      → IsAtomic (Handler.list ns f)
  unfolding run
  list-IsAtomic ns f p = record { keeps = λ order s. (p _).keeps order s }

  store-done :
      (order : Order) (r : Outcome Object) (g : Object → A) (s : Store)
      → (run order (done r >>= λ o. done (ok (g o))) s).1 ≡ s
  unfolding run
  store-done order (ok o) g s = refl
  store-done order (err e) g s = refl
  store-done order panic g s = refl

  current-IsAtomic :
      (f : ℕ → Handler A)
      → ((n : ℕ) → IsAtomic (f n))
      → IsAtomic (Handler.current_resource_version f)
  unfolding run
  current-IsAtomic f p = record { keeps = λ order s. (p s.rv).keeps order s }

  -- A write that ends the handler.
  write-IsAtomic :
      (c : Call) (g : Object → A) → IsAtomic (call c (λ r. done r >>= λ o. done (ok (g o))))
  unfolding run
  write-IsAtomic c g = record {
    keeps = λ order s. elim (perform_atomic c s) [
      | inl e ↦
          inl (ap (λ (t : Store). t.items) (store-done order (perform c s).0 g (perform c s).1) ∙ e)
      | inr (o, e) ↦ inr (g o, rw (e, run))
    ];
  }

request-IsAtomic : (c : Call) → IsAtomic (request c)
unfolding run
request-IsAtomic c = record {
  keeps = λ order s. elim (perform_atomic c s) [ inl e ↦ inl e | inr (o, e) ↦ inr (o, e) ];
}

module _ {A B : Type 0} where
  bind-IsAtomic :
      (m : Outcome A) (f : A → Handler B) → ((a : A) → IsAtomic (f a)) → IsAtomic (done m >>= f)
  bind-IsAtomic (ok a) f p = p a
  bind-IsAtomic (err e) f p = done-IsAtomic (err e)
  bind-IsAtomic panic f p = done-IsAtomic panic

ruleset atomic_rules = (
  done-IsAtomic, if-IsAtomic, bind-IsAtomic, get-IsAtomic, list-IsAtomic, current-IsAtomic,
  write-IsAtomic, request-IsAtomic,
)

module _ {Ctx : Type 0} (lib : Library Ctx) where
  create_on_update-IsAtomic :
      (ctx : Ctx) (key : Key) (obj_info : UpdatedObjectInfo Ctx) (cv : ValidateObjectFunc Ctx)
      → IsAtomic (create_on_update lib ctx key obj_info cv)
  unfolding create_on_update
  create_on_update-IsAtomic ctx key obj_info cv = search atomic_rules

  update_existing-IsAtomic :
      (ctx : Ctx) (name : GoString) (key : Key) (obj_info : UpdatedObjectInfo Ctx)
      (uv : ValidateObjectUpdateFunc Ctx) (strategy : UpdateStrategy Ctx) (gr : GroupResource)
      (existing : Object)
      → IsAtomic (update_existing lib ctx name key obj_info uv strategy gr existing)
  unfolding update_existing
  update_existing-IsAtomic ctx name key obj_info uv strategy gr existing =
      search atomic_rules depth 8

  pub update_on_store-IsAtomic :
      (ctx : Ctx) (name : GoString) (obj_info : UpdatedObjectInfo Ctx) (cv : ValidateObjectFunc Ctx)
      (uv : ValidateObjectUpdateFunc Ctx) (force : Bool) (strategy : UpdateStrategy Ctx)
      (gr : GroupResource)
      → IsAtomic (update_on_store lib ctx name obj_info cv uv force strategy gr)
  unfolding update_on_store
  update_on_store-IsAtomic ctx name obj_info cv uv force strategy gr =
      bind-IsAtomic (key_from_context lib ctx name strategy.namespace_scoped gr) _ (λ key.
        get-IsAtomic key _ (elim [
          | ok obj ↦ update_existing-IsAtomic ctx name key obj_info uv strategy gr obj
          | err e ↦
              if-IsAtomic (is_not_found e) _ _
                (if-IsAtomic (not force && not Strategy.allow_create_on_update) _ _
                  (done-IsAtomic (err e)) (create_on_update-IsAtomic ctx key obj_info cv))
                (done-IsAtomic (err e))
          | panic ↦ done-IsAtomic panic
        ]))

  module _ (gr : GroupResource) where
    pub get-handler-IsAtomic :
        (ctx : Ctx) (name : GoString) → IsAtomic (Registry.get lib gr ctx name)
    unfolding Registry.get
    get-handler-IsAtomic ctx name = search atomic_rules

    pub list-handler-IsAtomic :
        (ctx : Ctx) (options : Option ListOptions) → IsAtomic (Registry.list lib gr ctx options)
    unfolding Registry.list
    list-handler-IsAtomic ctx options = search atomic_rules depth 8

    pub create-handler-IsAtomic :
        (ctx : Ctx) (obj : Object) (cv : ValidateObjectFunc Ctx)
        → IsAtomic (Registry.create lib gr ctx obj cv)
    unfolding Registry.create
    create-handler-IsAtomic ctx obj cv = search atomic_rules

    pub delete-handler-IsAtomic :
        (ctx : Ctx) (name : GoString) (dv : ValidateObjectFunc Ctx) (options : Option DeleteOptions)
        → IsAtomic (Registry.delete lib gr ctx name dv options)
    unfolding Registry.delete
    delete-handler-IsAtomic ctx name dv options =
        bind-IsAtomic (key_from_context lib ctx name Strategy.namespace_scoped gr) _ λ key.
          get-IsAtomic key _ λ r. bind-IsAtomic r _ λ existing.
            bind-IsAtomic (accept_delete ctx name dv options gr existing) _
              λ _. write-IsAtomic (Call.delete key) (λ o. (o, true))

    -- A create, an update of the resource or of its status, and a delete leave every object of the
    -- store as it is unless they succeed: after a run with the store to itself the map is the one
    -- before, or the result is not an error and no panic.
    pub handlers-IsAtomic :
        (ctx : Ctx) (name : GoString) (obj : Object) (obj_info : UpdatedObjectInfo Ctx)
        (cv dv : ValidateObjectFunc Ctx) (uv : ValidateObjectUpdateFunc Ctx) (force : Bool)
        (options : Option DeleteOptions)
        → IsAtomic (Registry.create lib gr ctx obj cv)
          × IsAtomic (Registry.update lib gr ctx name obj_info cv uv force)
          × IsAtomic (Registry.update_status lib gr ctx name obj_info cv uv force)
          × IsAtomic (Registry.delete lib gr ctx name dv options)
    unfolding Registry.update Registry.update_status
    handlers-IsAtomic ctx name obj obj_info cv dv uv force options = (
      create-handler-IsAtomic ctx obj cv,
      update_on_store-IsAtomic ctx name obj_info cv uv force (Strategy.update_strategy lib) gr,
      update_on_store-IsAtomic ctx name obj_info cv uv force (StatusStrategy.update_strategy lib)
          gr,
      delete-handler-IsAtomic ctx name dv options,
    )
