-- ===== src/Registry/Filed.antt =====
-- Where and as what the handlers of pkg/registry/tasks/task/storage.go store an object.
use simple_api_server.Prelude.{
  ◌≡◌, ◌≢◌, refl, sym, subst, ap, ◌∙◌, true, some, [], GoString, Bool-cases, inl, inr, str_eq,
}
use simple_api_server.Kube.{GroupResource, ObjectMeta}
use simple_api_server.Kube.Outcome.{ok, ok-injective, >>=-eq-ok}
use simple_api_server.Api.{Task, Object, task, task_list, other_object, accessor, set_object_meta}
use simple_api_server.Rest.{
  Library, UpdateStrategy, UpdatedObjectInfo, ValidateObjectFunc, ValidateObjectUpdateFunc,
}
use simple_api_server.Rest.Laws.{LibraryLaws}
use simple_api_server.Strategy
use simple_api_server.StatusStrategy
use simple_api_server.Store.{Key}
use simple_api_server.Registry.Checks.{key_from_context, require_meta, validate_object}
use simple_api_server.Registry.Accept.{accept_create, accept_update, fill_system_fields, object_key}
use simple_api_server.Registry.Create.{validate-image}
use simple_api_server.Registry.Shape.{Updated-Shape}
use simple_api_server.Registry.Subresources.{
  strategy-tasks_only, status_strategy-tasks_only, prepare_status_lem, validate_update-image,
}
use simple_api_server.Registry.Update.{accept_update-Accepted}

-- A Task with an image, under a key in its own namespace.
pub record IsFiled (key : Key) (obj : Object) : Type 0 where
  pub body : Task
  pub is_task : obj ≡ task body
  pub in_namespace : body.object_meta.namespace ≡ key.namespace
  pub has_image : body.spec.image ≢ []

pub stamped-IsFiled :
    (key : Key) (obj : Object) (m : ObjectMeta) (version : GoString)
    → accessor obj ≡ some m
    → IsFiled key obj
    → IsFiled key (set_object_meta (record m { resource_version = version }) obj)
stamped-IsFiled key obj m version e f =
    let meta : some f.body.object_meta ≡ some m = sym (ap accessor f.is_task) ∙ e in
    record {
      body = record f.body { object_meta = record m { resource_version = version } };
      is_task = ap (set_object_meta (record m { resource_version = version })) f.is_task;
      in_namespace = cc (f.in_namespace, meta);
      has_image = f.has_image;
    }

create-tasks_only :
    (o q : Object)
    → Strategy.prepare_for_create o ≡ ok q
    → (r : Task) × (p : Task) × (o ≡ task r)
      × (q ≡ task p)
      × (p.object_meta.namespace ≡ r.object_meta.namespace)
unfolding Strategy.prepare_for_create
create-tasks_only (task r) q h = (r, _, refl, sym (ok-injective h), refl)
create-tasks_only (task_list l) q h = cc
create-tasks_only (other_object m) q h = cc

-- The key of a Create is that of the object.
pub object_key-IsFiled : (obj : Object) (key : Key) → IsFiled key obj → IsFiled (object_key obj) obj
object_key-IsFiled obj key f = record {
  body = f.body;
  is_task = f.is_task;
  in_namespace = ap (λ o. (object_key o).namespace) (sym f.is_task);
  has_image = f.has_image;
}

pub key_from_context-eq-ok :
    {Ctx : Type 0} (lib : Library Ctx) (ctx : Ctx) (name : GoString) (gr : GroupResource)
    (key : Key)
    → key_from_context lib ctx name true gr ≡ ok key
    → key ≡ record { namespace = (lib.namespace_from ctx).0; name = name }
unfolding key_from_context
key_from_context-eq-ok lib ctx name gr key h = elim (Bool-cases (str_eq name [])) [
  | inl e ↦ absurd (cc (rw (e, key_from_context) at h))
  | inr e ↦ elim (Bool-cases (str_eq (lib.namespace_from ctx).0 [])) [
    | inl f ↦ absurd (cc (rw (e, f, key_from_context) at h))
    | inr f ↦ sym (ok-injective (rw (e, f, key_from_context) at h))
  ]
]

module _ {Ctx : Type 0} (lib : Library Ctx) (laws : LibraryLaws lib) (ctx : Ctx) where
  pub accept_create-IsFiled :
      (obj accepted : Object) (cv : ValidateObjectFunc Ctx) (name : GoString)
      → accept_create lib ctx obj cv ≡ ok accepted
      → IsFiled (record { namespace = (lib.namespace_from ctx).0; name = name }) accepted
  unfolding accept_create Strategy.validate
  accept_create-IsFiled obj accepted cv name h =
      let strategy = Strategy.create_strategy lib in
      >>=-eq-ok (require_meta obj) _ h λ acc _ h₁.
        let filled = fill_system_fields lib acc obj in
        >>=-eq-ok (lib.before_create strategy ctx filled) _ h₁ λ obj' e₁ h₂.
          >>=-eq-ok (validate_object cv ctx obj') _ h₂ λ _ _ h₃.
            let c = laws.created strategy ctx filled accepted (e₁ ∙ h₃) in
            let (r, p, er, ep, same) = create-tasks_only c.readied c.prepared c.prepares in
            record {
              body = p;
              is_task = c.result ∙ ep;
              in_namespace = same ∙ c.in_namespace r.object_meta refl (ap accessor er);
              has_image = validate-image lib p (ok-injective (rw ep at c.accepted));
            }

  -- What accept_update lets through for a strategy.
  abbrev pub Files : UpdateStrategy Ctx → Type 0
  Files strategy =
      (name : GoString) (obj_info : UpdatedObjectInfo Ctx) (uv : ValidateObjectUpdateFunc Ctx)
      (gr : GroupResource) (key : Key) (existing accepted : Object)
      → IsFiled key existing
      → accept_update lib ctx name obj_info uv strategy gr existing ≡ ok accepted
      → IsFiled key accepted

  pub strategy-Files : Files (Strategy.update_strategy lib)
  strategy-Files name obj_info uv gr key existing accepted f h =
      let strategy = Strategy.update_strategy lib in
      let acc =
        accept_update-Accepted lib ctx name obj_info uv strategy gr (task f.body) accepted
          (rw f.is_task at h) in
      let sh =
        Updated-Shape lib strategy ctx acc.sent f.body accepted (strategy-tasks_only f.body)
          (λ o. refl)
          (laws.updated strategy ctx acc.sent (task f.body) accepted acc.before_update) in
      record {
        body = sh.f;
        is_task = sh.accepted_as;
        in_namespace = sh.same_namespace ∙ f.in_namespace;
        has_image = validate_update-image lib sh.f f.body sh.validated;
      }

  pub status_strategy-Files : Files (StatusStrategy.update_strategy lib)
  status_strategy-Files name obj_info uv gr key existing accepted f h =
      let strategy = StatusStrategy.update_strategy lib in
      let acc =
        accept_update-Accepted lib ctx name obj_info uv strategy gr (task f.body) accepted
          (rw f.is_task at h) in
      let sh =
        Updated-Shape lib strategy ctx acc.sent f.body accepted (status_strategy-tasks_only f.body)
          (λ o. refl)
          (laws.updated strategy ctx acc.sent (task f.body) accepted acc.before_update) in
      let (spec, _, _) = prepare_status_lem f.body sh.r sh.p sh.prepares in
      record {
        body = sh.f;
        is_task = sh.accepted_as;
        in_namespace = sh.same_namespace ∙ f.in_namespace;
        has_image = subst (λ s. s.image ≢ []) (sym spec ∙ sh.kept_spec) f.has_image;
      }
