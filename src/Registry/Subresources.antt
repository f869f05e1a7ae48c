-- ===== src/Registry/Subresources.antt =====
-- Two views of one Task: an update of the resource cannot change the status, an update of the
-- status cannot change the spec.
use simple_api_server.Prelude.{
  ◌+◌, ◌%◌, ◌^◌, ◌<◌, ◌≡◌, ◌≢◌, ◌↔◌, refl, sym, ap, subst, ◌∙◌, ◌∷◌, Bool, true, some, [], GoString,
  text, str_eq_iff, arith,
}
use simple_api_server.Prelude.Decimal.{format_uint}
use simple_api_server.Kube.{GroupResource, required}
use simple_api_server.Kube.Outcome.{ok}
use simple_api_server.Api.{Task, Object, task, task_list, other_object, accessor, set_object_meta}
use simple_api_server.Rest.{
  Library, UpdateStrategy, UpdatedObjectInfo, ValidateObjectFunc, ValidateObjectUpdateFunc,
}
use simple_api_server.Rest.Laws.{LibraryLaws}
use simple_api_server.Strategy
use simple_api_server.Strategy.{validate_task}
use simple_api_server.Strategy.SpecEqual.{SameSpec}
use simple_api_server.Strategy.Generation.{prepare_for_update_lem}
use simple_api_server.StatusStrategy
use simple_api_server.StatusStrategy.{validate_status_update}
use simple_api_server.Store.{Key, Store, lookup}
use simple_api_server.Store.Writes.{Wrote}
use simple_api_server.Handler.{Order, run}
use simple_api_server.Registry
use simple_api_server.Registry.Checks.{key_from_context}
use simple_api_server.Registry.Shape.{Shape, Updated-Shape, snoc-ne-nil}
use simple_api_server.Registry.Update.{Accepted, update_on_store-eq-ok}

pub strategy-tasks_only :
    (old : Task) (o q : Object)
    → Strategy.prepare_for_update o (task old) ≡ ok q
    → (r : Task) × (p : Task) × (o ≡ task r) × (q ≡ task p)
unfolding Strategy.prepare_for_update
strategy-tasks_only old (task r) (task p) h = (r, p, refl, refl)
strategy-tasks_only old (task r) (task_list l) h = cc
strategy-tasks_only old (task r) (other_object m) h = cc
strategy-tasks_only old (task_list l) q h = cc
strategy-tasks_only old (other_object m) q h = cc

pub status_strategy-tasks_only :
    (old : Task) (o q : Object)
    → StatusStrategy.prepare_for_update o (task old) ≡ ok q
    → (r : Task) × (p : Task) × (o ≡ task r) × (q ≡ task p)
unfolding StatusStrategy.prepare_for_update
status_strategy-tasks_only old (task r) (task p) h = (r, p, refl, refl)
status_strategy-tasks_only old (task r) (task_list l) h = cc
status_strategy-tasks_only old (task r) (other_object m) h = cc
status_strategy-tasks_only old (task_list l) q h = cc
status_strategy-tasks_only old (other_object m) q h = cc

pub prepare_status_lem :
    (old r p : Task)
    → StatusStrategy.prepare_for_update (task r) (task old) ≡ ok (task p)
    → (p.spec ≡ old.spec)
      × (p.status ≡ r.status)
      × (p.object_meta.generation ≡ old.object_meta.generation)
unfolding StatusStrategy.prepare_for_update
prepare_status_lem old r p h = (ground arith, ground arith, ground arith)

pub validate_update-image :
    {Ctx : Type 0} (lib : Library Ctx) (f old : Task)
    → Strategy.validate_update lib (task f) (task old) ≡ ok []
    → f.spec.image ≢ []
unfolding Strategy.validate_update validate_task
validate_update-image lib f old h e = ground (
  arith,
  str_eq_iff f.spec.image [],
  snoc-ne-nil (lib.validate_object_meta f.object_meta true (text "metadata" ∷ []))
      (required (text "spec" ∷ text "image" ∷ [])),
)

validate_update-status :
    {Ctx : Type 0} (lib : Library Ctx) (f old : Task)
    → StatusStrategy.validate_update lib (task f) (task old) ≡ ok []
    → (version : GoString)
    → validate_status_update lib
        (record f { object_meta = record f.object_meta { resource_version = version } })
      ≡ []
unfolding StatusStrategy.validate_update validate_status_update
validate_update-status lib f old h version = ground arith

-- The Task that the store holds after an update.
pub record Result {Ctx : Type 0} (ctx : Ctx) (key : Key) (t : Store) (old : Task) (obj : Object)
    (obj_info : UpdatedObjectInfo Ctx) (sent stored : Task) : Type 0 where
  pub returned : obj ≡ task stored
  pub kept : lookup key t.items ≡ some (task stored)
  pub sends : obj_info.updated_object ctx (task old) ≡ ok (task sent)
  pub same_name : stored.object_meta.name ≡ old.object_meta.name
  pub same_namespace : stored.object_meta.namespace ≡ old.object_meta.namespace

module _ {Ctx : Type 0} (lib : Library Ctx) (laws : LibraryLaws lib) (order : Order)
    (gr : GroupResource) (ctx : Ctx) (name : GoString) (key : Key) (s t : Store) (old : Task)
    (obj : Object) (created : Bool) (addressed : key_from_context lib ctx name true gr ≡ ok key)
    (found : lookup key s.items ≡ some (task old)) (obj_info : UpdatedObjectInfo Ctx)
    (cv : ValidateObjectFunc Ctx) (uv : ValidateObjectUpdateFunc Ctx) (force : Bool) where
  -- What is stored of an accepted Task.
  abbrev stamped : Task → Task
  stamped f = record f {
    object_meta = record f.object_meta { resource_version = format_uint t.rv };
  }

  settle :
      (strategy : UpdateStrategy Ctx) (accepted : Object)
      → ((o q : Object)
          → strategy.prepare_for_update ctx o (task old) ≡ ok q
          → (r : Task) × (p : Task) × (o ≡ task r) × (q ≡ task p))
      → ((o : Object) → strategy.canonicalize o ≡ o)
      → (acc : Accepted lib ctx name obj_info uv strategy gr (task old) accepted)
      → Wrote key accepted s obj t
      → (sh : Shape strategy ctx acc.sent old accepted) × Result ctx key t old obj obj_info sh.a
          (stamped sh.f)
  settle strategy accepted tasks_only canonical acc w =
      let sh : Shape strategy ctx acc.sent old accepted =
        Updated-Shape lib strategy ctx acc.sent old accepted tasks_only canonical
          (laws.updated strategy ctx acc.sent (task old) accepted acc.before_update) in
      let meta : some sh.f.object_meta ≡ some w.meta =
        sym (ap accessor sh.accepted_as) ∙ w.had_meta in
      let same : w.meta ≡ sh.f.object_meta = cc in
      let returned : obj ≡ task (stamped sh.f) = w.stored_as ∙ (λ i.
        set_object_meta (record (same i) { resource_version = format_uint t.rv })
          (sh.accepted_as i)) in
      (
        sh,
        record {
          returned = returned;
          kept = w.at_key ∙ ap some returned;
          sends = acc.updated ∙ ap ok sh.sent_as;
          same_name = sh.same_name;
          same_namespace = sh.same_namespace;
        },
      )

  -- With a library that behaves as documented and an old generation below 2 ^ 64: an update of the
  -- resource that succeeds on the Task stored under the key of the request stores and returns a Task with the spec
  -- that the client sent and the status that was there; its image is not empty, its name and
  -- namespace are the old ones, and its generation is the old one exactly if the spec is the same up
  -- to nil against empty, and the successor of the old one, in 64 bits, if it is not.
  pub update-keeps_status :
      run order (Registry.update lib gr ctx name obj_info cv uv force) s ≡ (ok (obj, created), t)
      → old.object_meta.generation < 2 ^ 64
      → (sent : Task) × (stored : Task) × Result ctx key t old obj obj_info sent stored
        × (stored.spec ≡ sent.spec)
        × (stored.status ≡ old.status)
        × (stored.spec.image ≢ [])
        × ((stored.object_meta.generation ≡ old.object_meta.generation)
            ↔ SameSpec sent.spec old.spec)
        × ((SameSpec sent.spec old.spec → ⊥)
            → stored.object_meta.generation ≡ (old.object_meta.generation + 1) % 2 ^ 64)
  unfolding Registry.update
  update-keeps_status h small =
      let strategy = Strategy.update_strategy lib in
      let (accepted, acc, w, _) =
        update_on_store-eq-ok lib order ctx name obj_info uv strategy gr cv force key (task old) s t
          obj created addressed found h in
      let (sh, result) = settle strategy accepted (strategy-tasks_only old) (λ o. refl) acc w in
      let (spec, status, generation, bumped) =
        prepare_for_update_lem sh.r old sh.p sh.prepares small in
      let r-a : sh.r.spec ≡ sh.a.spec = sym sh.sent_spec in
      (
        sh.a,
        stamped sh.f,
        result,
        sym sh.kept_spec ∙ spec ∙ r-a,
        sym sh.kept_status ∙ status,
        validate_update-image lib sh.f old sh.validated,
        subst
            (λ x. (sh.f.object_meta.generation ≡ old.object_meta.generation) ↔ SameSpec x old.spec)
            r-a
            (subst (λ x. (x ≡ old.object_meta.generation) ↔ SameSpec sh.r.spec old.spec)
              sh.kept_generation generation),
        λ differ.
            sym sh.kept_generation
            ∙ bumped (λ same. differ (subst (λ x. SameSpec x old.spec) r-a same)),
      )

  -- With a library that behaves as documented: an update of the status that succeeds on the Task
  -- stored under the key of the request stores and returns a Task with the status
  -- that the client sent and the spec and the generation that were there, under the old name and
  -- namespace, and that status is one which validateStatusUpdate accepts.
  pub update_status-keeps_spec :
      run order (Registry.update_status lib gr ctx name obj_info cv uv force) s
        ≡ (ok (obj, created), t)
      → (sent : Task) × (stored : Task) × Result ctx key t old obj obj_info sent stored
        × (stored.status ≡ sent.status)
        × (stored.spec ≡ old.spec)
        × (stored.object_meta.generation ≡ old.object_meta.generation)
        × (validate_status_update lib stored ≡ [])
  unfolding Registry.update_status
  update_status-keeps_spec h =
      let strategy = StatusStrategy.update_strategy lib in
      let (accepted, acc, w, _) =
        update_on_store-eq-ok lib order ctx name obj_info uv strategy gr cv force key (task old) s t
          obj created addressed found h in
      let (sh, result) =
        settle strategy accepted (status_strategy-tasks_only old) (λ o. refl) acc w in
      let (spec, status, generation) = prepare_status_lem old sh.r sh.p sh.prepares in
      (
        sh.a,
        stamped sh.f,
        result,
        sym sh.kept_status ∙ status ∙ sym sh.sent_status,
        sym sh.kept_spec ∙ spec,
        sym sh.kept_generation ∙ generation,
        validate_update-status lib sh.f old sh.validated (format_uint t.rv),
      )
