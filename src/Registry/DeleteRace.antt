-- ===== src/Registry/DeleteRace.antt =====
-- A Delete whose preconditions are checked before an update of the same Task, and whose removal comes
-- after it: (*REST).Delete of pkg/registry/tasks/task/storage.go makes two calls of the store.
use simple_api_server.Prelude.{
  ℕ, ◌+◌, ◌≤◌, ◌<◌, ◌≡◌, refl, ap, ◌∙◌, subst, Bool, true, false, none, some, [], ◌∷◌, GoString,
  arith,
}
use simple_api_server.Prelude.Decimal.{uint64_mod, format_uint, format_uint-injective}
use simple_api_server.Kube.{GroupResource, ObjectMeta, Preconditions}
use simple_api_server.Kube.Outcome.{Outcome, ok}
use simple_api_server.Api.{Object, accessor}
use simple_api_server.Rest.{
  Library, UpdatedObjectInfo, ValidateObjectFunc, ValidateObjectUpdateFunc,
}
use simple_api_server.Store
use simple_api_server.Store.{Key, Store, lookup, remove}
use simple_api_server.Store.Items.{Unique, lookup-remove_self}
use simple_api_server.Store.Writes.{accessor-set_object_meta}
use simple_api_server.Store.Calls.{Call, perform}
use simple_api_server.Store.Refinement.Traces.{perform-Unique}
use simple_api_server.Handler.{Handler, done, call, ◌>>=◌, Order, step}
use simple_api_server.Handler.Interleaving.{interleave}
use simple_api_server.Strategy
use simple_api_server.Registry
use simple_api_server.Registry.Checks.{key_from_context, check_preconditions}
use simple_api_server.Registry.Accept.{DeleteOptions, accept_delete, accept_update}
use simple_api_server.Registry.Delete.{check_preconditions-Meets}
use simple_api_server.Registry.Race.{
  stamped, pair, update-eq-ok, step-get, step-decided, four_turns,
}

-- A Delete that has checked the preconditions, and is about to remove.
abbrev removing : Key → Handler (Object × Bool)
removing key = call (Call.delete key) (λ r. done r >>= λ deleted. done (ok (deleted, true)))

module _ {Ctx : Type 0} (lib : Library Ctx) (order : Order) (gr : GroupResource) (ctx : Ctx)
    (name : GoString) (dv : ValidateObjectFunc Ctx) (options : DeleteOptions) (key : Key)
    (existing : Object) where
  step-check :
      (s : Store)
      → key_from_context lib ctx name true gr ≡ ok key
      → accept_delete ctx name dv (some options) gr existing ≡ ok tt
      → lookup key s.items ≡ some existing
      → step order (Registry.delete lib gr ctx name dv (some options)) s ≡ (removing key, s)
  unfolding Registry.delete step perform Store.get
  step-check s addressed accepts found =
      rw (addressed, Registry.delete, step) (rw (found, Store.get, perform) (rw accepts refl))

step-removing :
    (order : Order) (key : Key) (t : Store) (o : Object)
    → Unique t.items
    → lookup key t.items ≡ some o
    → (u : Store) × (step order (removing key) t ≡ (done (ok (o, true)), u))
      × (lookup key u.items ≡ none)
unfolding step perform Store.delete
step-removing order key t o unique found = (
  (Store.delete key t).1,
  rw (found, Store.delete, perform, step) refl,
  rw (found, Store.delete) (lookup-remove_self key t.items unique),
)

-- An object with a later version does not meet a precondition on an earlier one.
version_unmet :
    (o : Object) (m : ObjectMeta) (pre : Preconditions) (gr : GroupResource) (name : GoString)
    (v n : ℕ)
    → accessor o ≡ some m
    → pre.resource_version ≡ some (format_uint v)
    → v < n
    → n < uint64_mod
    → ¬ (check_preconditions (stamped m n o) (some pre) gr name ≡ ok tt)
version_unmet o m pre gr name v n meta stated earlier room met =
    let (_, meets) =
      check_preconditions-Meets (stamped m n o) (record m { resource_version = format_uint n }) pre
        gr name (accessor-set_object_meta o m _ meta) met in
    let same : v ≡ n =
      format_uint-injective v n (omega arith) room (meets (format_uint v) stated) in
    absurd (omega arith)

module _ {Ctx : Type 0} (lib : Library Ctx) (order : Order) (gr : GroupResource) (ctx ctx' : Ctx)
    (name : GoString) (obj_info : UpdatedObjectInfo Ctx) (cv dv : ValidateObjectFunc Ctx)
    (uv : ValidateObjectUpdateFunc Ctx) (force : Bool) (options : DeleteOptions)
    (pre : Preconditions) (v : ℕ) (key : Key) (s : Store) (existing a : Object)
    (m : ObjectMeta) where
  -- A Delete with a precondition on the version can remove an object of another version: if the
  -- object under the key of the requests passes the checks of the Delete and an update of it is
  -- accepted, both make their Get before the update writes and the Delete removes last, and the
  -- counter has room for one version, then both are answered with success, the Delete returns and
  -- removes the object that the update has written, and that object does not meet the preconditions
  -- of the Delete, which name a version that the store had reached before.
  pub delete_race :
      key_from_context lib ctx name true gr ≡ ok key
      → key_from_context lib ctx' name true gr ≡ ok key
      → Unique s.items
      → lookup key s.items ≡ some existing
      → s.rv + 1 < uint64_mod
      → accept_update lib ctx name obj_info uv (Strategy.update_strategy lib) gr existing ≡ ok a
      → accessor a ≡ some m
      → options.preconditions ≡ some pre
      → pre.resource_version ≡ some (format_uint v)
      → v ≤ s.rv
      → accept_delete ctx' name dv (some options) gr existing ≡ ok tt
      → let end = interleave order (0 ∷ 1 ∷ 0 ∷ 1 ∷ []) (
          pair order s
            (Registry.update lib gr ctx name obj_info cv uv force)
            (Registry.delete lib gr ctx' name dv (some options))) in
        let written = stamped m (s.rv + 1) a in
        (end.threads 0 ≡ done (ok (written, false)))
        × (end.threads 1 ≡ done (ok (written, true)))
        × (lookup key end.store.items ≡ none)
        × (¬ (check_preconditions written (some pre) gr name ≡ ok tt))
  unfolding Registry.update perform
  delete_race k k' unique found room accepts meta stated versioned reached passes =
      let (t, wrote, at, rv) = update-eq-ok key existing a m s found meta room in
      let still : Unique t.items =
        subst (λ (x : Outcome Object × Store). Unique x.1.items) wrote
          (perform-Unique (Call.update key a) s unique) in
      let (u, removed, gone) = step-removing order key t (stamped m (s.rv + 1) a) still at in
      let (e, f, g) =
        four_turns order _ _ _ _ _ _ s s s t u
          (step-get lib order gr ctx name obj_info cv uv force (Strategy.update_strategy lib) key
            existing a k accepts s found)
          (step-check lib order gr ctx' name dv options key existing s k' passes found)
          (step-decided order key a s t _ wrote) removed in
      (
        f,
        g,
        ap (λ x. lookup key x.items) e ∙ gone,
        version_unmet a m pre gr name v (s.rv + 1) meta versioned (omega arith) room,
      )
