-- ===== src/Registry/Sequence.antt =====
-- Two updates from the same read, one after the other.
use mathlib.Core.Option
use simple_api_server.Prelude.{
  ◌+◌, ◌<◌, ◌≡◌, ◌≢◌, sym, ap, ◌∙◌, Bool, true, none, some, GoString, arith,
}
use simple_api_server.Prelude.Decimal.{uint64_mod, format_uint, format_uint-injective}
use simple_api_server.Kube.{GroupResource, ObjectMeta, Cause, conflict}
use simple_api_server.Kube.Outcome.{ok, err}
use simple_api_server.Api.{Object, accessor}
use simple_api_server.Rest.{
  Library, UpdatedObjectInfo, ValidateObjectFunc, ValidateObjectUpdateFunc,
}
use simple_api_server.Strategy
use simple_api_server.Store.{Key, Store, lookup}
use simple_api_server.Store.Invariant.{IsValid}
use simple_api_server.Store.Writes.{Wrote, accessor-Wrote, stamp-Wrote}
use simple_api_server.Handler.{Order, run}
use simple_api_server.Registry
use simple_api_server.Registry.Checks.{key_from_context}
use simple_api_server.Registry.Update.{update_on_store-eq-ok}
use simple_api_server.Registry.Version.{update_stale}

-- A write moves the object at its key to a version that it did not have.
stamp-moves :
    {key : Key} {o stored existing : Object} {s t : Store} (m n : ObjectMeta)
    → IsValid s
    → s.rv + 1 < uint64_mod
    → lookup key s.items ≡ some existing
    → accessor existing ≡ some m
    → Wrote key o s stored t
    → accessor stored ≡ some n
    → m.resource_version ≢ n.resource_version
stamp-moves {key} {existing = existing} {s} {t} m n v h found em w en same =
    let (k, le, e) = v.stamped key existing found in
    let before : some m.resource_version ≡ some (format_uint k) =
      sym (ap (Option.map (λ x. x.resource_version)) em) ∙ e in
    let after : some n.resource_version ≡ some (format_uint t.rv) =
      sym (ap (Option.map (λ x. x.resource_version)) en) ∙ stamp-Wrote w in
    let rv : t.rv ≡ s.rv + 1 = w.counter ∙ omega arith in
    let texts : format_uint k ≡ format_uint t.rv = cc in
    omega (arith, format_uint-injective k t.rv (omega arith) (omega arith) texts)

module _ {Ctx : Type 0} (lib : Library Ctx) (order : Order) (gr : GroupResource) (ctx : Ctx)
    (name : GoString) (key : Key) (s t : Store) (existing obj sent : Object) (created : Bool)
    (m n : ObjectMeta) (valid : IsValid s) (room : s.rv + 1 < uint64_mod)
    (addressed : key_from_context lib ctx name true gr ≡ ok key)
    (found : lookup key s.items ≡ some existing) (em : accessor existing ≡ some m)
    (first second : UpdatedObjectInfo Ctx) (cv cv' : ValidateObjectFunc Ctx)
    (uv uv' : ValidateObjectUpdateFunc Ctx) (force force' : Bool) where
  -- After a successful update of a stored object, an update that carries the version which the object
  -- had before it, and no precondition, is answered with Conflict and changes nothing, on the
  -- resource and on its status: of two clients that read the same version, the one that comes second
  -- fails. The store is assumed to be valid, with room for one more version.
  pub update_second :
      run order (Registry.update lib gr ctx name first cv uv force) s ≡ (ok (obj, created), t)
      → ((current : Object) → second.updated_object ctx current ≡ ok sent)
      → second.preconditions ≡ none
      → accessor sent ≡ some n
      → n.resource_version ≡ m.resource_version
      → ((c : Cause) × (run order (Registry.update lib gr ctx name second cv' uv' force') t
            ≡ (err (conflict gr n.name c), t)))
        × ((c : Cause) × (run order (Registry.update_status lib gr ctx name second cv' uv' force') t
              ≡ (err (conflict gr n.name c), t)))
  unfolding Registry.update
  update_second h sends unconditional en same =
      let (accepted, _, w, _) =
        update_on_store-eq-ok lib order ctx name first uv (Strategy.update_strategy lib) gr cv force
          key existing s t obj created addressed found h in
      let current : ObjectMeta = record w.meta { resource_version = format_uint t.rv } in
      let moved = stamp-moves m current valid room found em w (accessor-Wrote w) in
      update_stale lib order gr ctx name key t obj sent current n addressed w.at_key
        (accessor-Wrote w) en (λ e. moved (sym same ∙ e)) second (sends obj) unconditional cv' uv'
        force'
