-- ===== src/Registry/Accepted.antt =====
-- What a client has shown when its update succeeds: updateOnStore of
-- pkg/registry/tasks/task/storage.go.
use simple_api_server.Prelude.{
  ◌≡◌, ◌≢◌, ◌⊎◌, inl, inr, refl, subst, Bool, true, false, some, [], GoString, arith,
}
use simple_api_server.Kube.{GroupResource, ObjectMeta, Preconditions}
use simple_api_server.Kube.Outcome.{ok, >>=-eq-ok}
use simple_api_server.Api.{Object, accessor}
use simple_api_server.Rest.{
  Library, UpdateStrategy, UpdatedObjectInfo, ValidateObjectFunc, ValidateObjectUpdateFunc,
}
use simple_api_server.Strategy
use simple_api_server.StatusStrategy
use simple_api_server.Store.{Key, Store, lookup}
use simple_api_server.Handler.{Order, run}
use simple_api_server.Registry
use simple_api_server.Registry.{update_on_store}
use simple_api_server.Registry.Checks.{
  key_from_context, check_preconditions, check_resource_version, require_meta,
}
use simple_api_server.Registry.Delete.{Meets, check_preconditions-Meets}
use simple_api_server.Registry.Update.{Accepted, update_on_store-eq-ok}
use simple_api_server.Registry.Version.{check_resource_version-eq-ok}

require_meta-accessor : (o : Object) (n : ObjectMeta) → require_meta o ≡ ok n → accessor o ≡ some n
require_meta-accessor o n h = ground arith

-- A version was compared only if the object has metadata.
check_resource_version-accessor :
    {Ctx : Type 0} (existing sent : Object) (strategy : UpdateStrategy Ctx) (gr : GroupResource)
    → check_resource_version existing sent strategy gr ≡ ok tt
    → (n : ObjectMeta) × (accessor sent ≡ some n)
unfolding check_resource_version
check_resource_version-accessor existing sent strategy gr h =
    >>=-eq-ok (require_meta existing) _ h
      λ _ _ h₁. >>=-eq-ok (require_meta sent) _ h₁ λ n e _. (n, require_meta-accessor sent n e)

-- What was sent carries the version of the object with metadata `m`, and the preconditions that were
-- stated are met by it.
pub record Shown {Ctx : Type 0} (ctx : Ctx) (obj_info : UpdatedObjectInfo Ctx) (existing : Object)
    (m : ObjectMeta) : Type 0 where
  pub sent : Object
  pub meta : ObjectMeta
  pub sends : obj_info.updated_object ctx existing ≡ ok sent
  pub has_meta : accessor sent ≡ some meta
  pub current : meta.resource_version ≡ m.resource_version
  pub not_empty : meta.resource_version ≢ []
  pub meets :
      (pre : Preconditions)
      → obj_info.preconditions ≡ some pre
      → Meets pre.uid m.uid × Meets pre.resource_version m.resource_version

module _ {Ctx : Type 0} (lib : Library Ctx) (order : Order) (gr : GroupResource) (ctx : Ctx)
    (name : GoString) (key : Key) (obj_info : UpdatedObjectInfo Ctx) (cv : ValidateObjectFunc Ctx)
    (uv : ValidateObjectUpdateFunc Ctx) (force : Bool) (existing : Object) (m : ObjectMeta) where
  Accepted-Shown :
      (strategy : UpdateStrategy Ctx) (accepted : Object)
      → strategy.allow_unconditional_update ≡ false
      → accessor existing ≡ some m
      → Accepted lib ctx name obj_info uv strategy gr existing accepted
      → Shown ctx obj_info existing m
  Accepted-Shown strategy accepted fixed em a =
      let (n, en) = check_resource_version-accessor existing a.sent strategy gr a.version in
      let (current, not_empty) =
        check_resource_version-eq-ok existing a.sent strategy gr m n fixed em en a.version in
      record {
        sent = a.sent;
        meta = n;
        sends = a.updated;
        has_meta = en;
        current = current;
        not_empty = not_empty;
        meets = λ pre stated.
            check_preconditions-Meets existing m pre gr name em
              (subst (λ p. check_preconditions existing p gr name ≡ ok tt) stated a.preconditions);
      }

  -- Optimistic concurrency: an update that succeeds on a stored object, with the store to itself, on
  -- the resource or on its status, carried the version of that object, which is not the empty text,
  -- and its preconditions on uid and version were met.
  pub update-Shown :
      (s t : Store) (obj : Object) (created : Bool)
      → key_from_context lib ctx name true gr ≡ ok key
      → lookup key s.items ≡ some existing
      → accessor existing ≡ some m
      → (run order (Registry.update lib gr ctx name obj_info cv uv force) s
          ≡ (ok (obj, created), t))
        ⊎ (run order (Registry.update_status lib gr ctx name obj_info cv uv force) s
            ≡ (ok (obj, created), t))
      → Shown ctx obj_info existing m
  unfolding Registry.update Registry.update_status
  update-Shown s t obj created addressed found em (inl h) =
      let (accepted, a, _, _) =
        update_on_store-eq-ok lib order ctx name obj_info uv (Strategy.update_strategy lib) gr cv
          force key existing s t obj created addressed found h in
      Accepted-Shown (Strategy.update_strategy lib) accepted refl em a
  update-Shown s t obj created addressed found em (inr h) =
      let (accepted, a, _, _) =
        update_on_store-eq-ok lib order ctx name obj_info uv (StatusStrategy.update_strategy lib) gr
          cv force key existing s t obj created addressed found h in
      Accepted-Shown (StatusStrategy.update_strategy lib) accepted refl em a
