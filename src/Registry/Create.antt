-- ===== src/Registry/Create.antt =====
-- What Create stores: (*REST).Create of pkg/registry/tasks/task/storage.go.
use simple_api_server.Prelude.{
  ◌≡◌, ◌≢◌, refl, sym, ap, ◌∙◌, inl, inr, Option-cases, some-injective, none, some, true, [], ◌∷◌,
  text, subst, str_eq_iff, arith,
}
use simple_api_server.Prelude.Decimal.{format_uint}
use simple_api_server.Kube.{GroupResource, ObjectMeta, required}
use simple_api_server.Kube.Outcome.{ok, ok-injective, >>=-eq-ok}
use simple_api_server.Api.{Task, Object, task, empty_status}
use simple_api_server.Rest.{Library, ValidateObjectFunc}
use simple_api_server.Rest.Laws.{LibraryLaws, Created}
use simple_api_server.Strategy
use simple_api_server.Strategy.{validate_task}
use simple_api_server.Store
use simple_api_server.Store.{Key, Store, lookup}
use simple_api_server.Store.Writes.{Wrote, create-Wrote}
use simple_api_server.Store.Calls.{perform}
use simple_api_server.Handler.{Order, run}
use simple_api_server.Registry
use simple_api_server.Registry.Running.{run-bind-eq-ok}
use simple_api_server.Registry.Shape.{SameBody-task, snoc-ne-nil}
use simple_api_server.Registry.Checks.{validate_object}
use simple_api_server.Registry.Accept.{accept_create, object_key, fill_system_fields}

-- A key under which a Create succeeds was free.
create-free :
    (key : Key) (o obj : Object) (s t : Store)
    → Store.create key o s ≡ (ok obj, t)
    → lookup key s.items ≡ none
unfolding Store.create
create-free key o obj s t h = elim (Option-cases (lookup key s.items)) [
  | inl e ↦ e
  | inr (p, e) ↦ absurd (cc (rw (e, Store.create) at h))
]

-- The Task that a Create accepts.
pub record NewTask {Ctx : Type 0} (lib : Library Ctx) (ctx : Ctx) (sent accepted : Task)
    : Type 0 where
  pub same_spec : accepted.spec ≡ sent.spec
  pub no_status : accepted.status ≡ empty_status
  pub first_generation : accepted.object_meta.generation ≡ 1
  pub in_namespace : accepted.object_meta.namespace ≡ (lib.namespace_from ctx).0
  pub has_image : accepted.spec.image ≢ []

pub validate-image :
    {Ctx : Type 0} (lib : Library Ctx) (p : Task) → validate_task lib p ≡ [] → p.spec.image ≢ []
unfolding validate_task
validate-image lib p h e = ground (
  arith,
  str_eq_iff p.spec.image [],
  snoc-ne-nil (lib.validate_object_meta p.object_meta true (text "metadata" ∷ []))
      (required (text "spec" ∷ text "image" ∷ [])),
)

module _ {Ctx : Type 0} (lib : Library Ctx) (order : Order) (gr : GroupResource) (ctx : Ctx)
    (cv : ValidateObjectFunc Ctx) where
  pub accept_create-Created :
      LibraryLaws lib
      → (sent : Task) (accepted : Object) → accept_create lib ctx (task sent) cv ≡ ok accepted
      → Created lib
          (Strategy.create_strategy lib)
          ctx
          (fill_system_fields lib sent.object_meta (task sent))
          accepted
  unfolding accept_create
  accept_create-Created laws sent accepted h =
      let strategy = Strategy.create_strategy lib in
      let filled = fill_system_fields lib sent.object_meta (task sent) in
      >>=-eq-ok (lib.before_create strategy ctx filled) _ h λ obj e₁ h₁.
        >>=-eq-ok (validate_object cv ctx obj) _ h₁
          λ _ e₂ h₂. laws.created strategy ctx filled accepted (e₁ ∙ h₂)

  pub Created-NewTask :
      (sent filled : Task) (accepted : Object)
      → filled.spec ≡ sent.spec
      → Created lib (Strategy.create_strategy lib) ctx (task filled) accepted
      → (a : Task) × (accepted ≡ task a) × NewTask lib ctx sent a
  unfolding Strategy.prepare_for_create Strategy.validate
  Created-NewTask sent filled accepted same c =
      let (r, er, spec, _) = SameBody-task filled c.readied c.same_body in
      let a : Task = record r {
        status = empty_status;
        object_meta = record r.object_meta { generation = 1 };
      } in
      let prepared : task a ≡ c.prepared = ok-injective (rw er at c.prepares) in
      let valid : validate_task lib a ≡ [] = ok-injective (rw (← prepared) at c.accepted) in
      (
        a,
        c.result ∙ sym prepared,
        record {
          same_spec = sym spec ∙ same;
          no_status = refl;
          first_generation = refl;
          in_namespace = c.in_namespace r.object_meta refl (rw er refl);
          has_image = validate-image lib a valid;
        },
      )

  -- What the store makes of an accepted Task.
  pub stored-NewTask :
      (key : Key) (sent a : Task) (obj : Object) (s t : Store)
      → NewTask lib ctx sent a
      → Wrote key (task a) s obj t
      → (stored : Task) × NewTask lib ctx sent stored
        × (obj ≡ task stored)
        × (object_key (task a) ≡ object_key obj)
  stored-NewTask key sent a obj s t new w =
      let meta : a.object_meta ≡ w.meta = some-injective w.had_meta in
      let stamp : ObjectMeta → Task =
        λ m. record a { object_meta = record m { resource_version = format_uint t.rv } } in
      let same : obj ≡ task (stamp a.object_meta) =
        w.stored_as ∙ ap (λ m. task (stamp m)) (sym meta) in
      (
        stamp a.object_meta,
        record {
          same_spec = new.same_spec;
          no_status = new.no_status;
          first_generation = new.first_generation;
          in_namespace = new.in_namespace;
          has_image = new.has_image;
        },
        same,
        ap object_key (sym same),
      )

  -- With a library that behaves as documented: a Create that succeeds on a Task found no object under its key and stores and returns a Task
  -- with the spec that was sent, an empty status, generation 1, an image, and the namespace of the
  -- request, under the key of its own namespace and name; no other key changes.
  pub create_lem :
      LibraryLaws lib
      → (sent : Task) (obj : Object) (s t : Store)
      → run order (Registry.create lib gr ctx (task sent) cv) s ≡ (ok obj, t)
      → (stored : Task) × NewTask lib ctx sent stored
        × (obj ≡ task stored)
        × (lookup (object_key obj) s.items ≡ none)
        × (lookup (object_key obj) t.items ≡ some obj)
        × ((j : Key) → object_key obj ≢ j → lookup j t.items ≡ lookup j s.items)
  unfolding Registry.create run perform
  create_lem laws sent obj s t h =
      let (accepted, e, h') = run-bind-eq-ok order _ s (accept_create lib ctx (task sent) cv) h in
      let filled : Task = record sent {
        object_meta = lib.fill_object_meta_system_fields sent.object_meta;
      } in
      let (a, ea, new) =
        Created-NewTask sent filled accepted refl (accept_create-Created laws sent accepted e) in
      let written : Store.create (object_key (task a)) (task a) s ≡ (ok obj, t) =
        subst (λ o. Store.create (object_key o) o s ≡ (ok obj, t)) ea h' in
      let w = create-Wrote (object_key (task a)) (task a) obj s t written in
      let (stored, new', same, key) = stored-NewTask (object_key (task a)) sent a obj s t new w in
      (
        stored,
        new',
        same,
        rw (← key) (create-free (object_key (task a)) (task a) obj s t written),
        rw (← key) w.at_key,
        rw (← key) w.elsewhere,
      )
