-- ===== src/Registry/Update.antt =====
-- What updateOnStore checks before it writes.
use simple_api_server.Prelude.{◌≡◌, refl, ◌∙◌, Bool, false, some, arith, sym, GoString}
use simple_api_server.Kube.{GroupResource}
use simple_api_server.Kube.Outcome.{Outcome, ok, err, panic, >>=-eq-ok}
use simple_api_server.Api.{Object}
use simple_api_server.Rest.{
  Library, UpdateStrategy, UpdatedObjectInfo, ValidateObjectFunc, ValidateObjectUpdateFunc,
}
use simple_api_server.Registry.Checks.{
  key_from_context, check_preconditions, check_resource_version, validate_object_update,
}
use simple_api_server.Registry.Accept.{accept_update}
use simple_api_server.Store
use simple_api_server.Store.{Key, Store, lookup}
use simple_api_server.Store.Writes.{Wrote, update-Wrote}
use simple_api_server.Store.Calls.{Call, perform}
use simple_api_server.Handler.{Handler, done, Order, run, ◌>>=◌}
use simple_api_server.Registry.{update_existing, update_on_store}

module _ {Ctx : Type 0} (lib : Library Ctx) (ctx : Ctx) (name : GoString)
    (obj_info : UpdatedObjectInfo Ctx) (uv : ValidateObjectUpdateFunc Ctx)
    (strategy : UpdateStrategy Ctx) (gr : GroupResource) (existing : Object) where
  -- Every check passed, and BeforeUpdate made `accepted` of what the client sent.
  pub record Accepted (accepted : Object) : Type 0 where
    pub sent : Object
    pub updated : obj_info.updated_object ctx existing ≡ ok sent
    pub preconditions : check_preconditions existing obj_info.preconditions gr name ≡ ok tt
    pub version : check_resource_version existing sent strategy gr ≡ ok tt
    pub before_update : lib.before_update strategy ctx sent existing ≡ ok accepted
    pub admitted : validate_object_update uv ctx accepted existing ≡ ok tt

  pub accept_update-Accepted :
      (accepted : Object)
      → accept_update lib ctx name obj_info uv strategy gr existing ≡ ok accepted
      → Accepted accepted
  unfolding accept_update
  accept_update-Accepted accepted h =
      >>=-eq-ok (obj_info.updated_object ctx existing) _ h λ sent e₁ h₁.
        >>=-eq-ok (check_preconditions existing obj_info.preconditions gr name) _ h₁ λ _ e₂ h₂.
          >>=-eq-ok (check_resource_version existing sent strategy gr) _ h₂ λ _ e₃ h₃.
            >>=-eq-ok (lib.before_update strategy ctx sent existing) _ h₃ λ obj e₄ h₄.
              >>=-eq-ok (validate_object_update uv ctx obj existing) _ h₄ λ _ e₅ h₅.
                let same : obj ≡ accepted = cc in
                record {
                  sent = sent;
                  updated = e₁;
                  preconditions = e₂;
                  version = e₃;
                  before_update = e₄ ∙ h₅;
                  admitted = rw (← same) e₅;
                }

abbrev answer : Outcome Object × Store → Outcome (Object × Bool) × Store
answer (ok obj, s) = (ok (obj, false), s)
answer (err e, s) = (err e, s)
answer (panic, s) = (panic, s)

-- The end of an update: the write, if the object was accepted.
abbrev pub write_back : Key → Store → Outcome Object → Outcome (Object × Bool) × Store
write_back key s (err e) = (err e, s)
write_back key s panic = (panic, s)
write_back key s (ok obj) = answer (perform (Call.update key obj) s)

-- A write-back that succeeds was accepted, and is one successful Update of the store.
pub write_back-eq-ok :
    (key : Key) (s t : Store) (r : Outcome Object) (obj : Object) (created : Bool)
    → write_back key s r ≡ (ok (obj, created), t)
    → (accepted : Object) × (r ≡ ok accepted)
      × (Store.update key accepted s ≡ (ok obj, t))
      × (created ≡ false)
unfolding perform
write_back-eq-ok key s t (err e) obj created h = cc
write_back-eq-ok key s t panic obj created h = cc
write_back-eq-ok key s t (ok accepted) obj created h =
    let (written, not_created) =
      go (Store.update key accepted s).0 (Store.update key accepted s).1 h in
    (accepted, refl, written, not_created)
  where
    go :
        (r : Outcome Object) (u : Store)
        → answer (r, u) ≡ (ok (obj, created), t)
        → (◌≡◌ {A = Outcome Object × Store} (r, u) (ok obj, t)) × (created ≡ false)
    go (ok o) u h = (ground arith, ground arith)
    go (err e) u h = cc
    go panic u h = cc

module _ {Ctx : Type 0} (lib : Library Ctx) (order : Order) (ctx : Ctx) (name : GoString)
    (obj_info : UpdatedObjectInfo Ctx) (uv : ValidateObjectUpdateFunc Ctx)
    (strategy : UpdateStrategy Ctx) (gr : GroupResource) where
  run-answer :
      (c : Call) (s : Store)
      → run order (Handler.call c (λ r. done r >>= λ o. done (ok (o, false)))) s
        ≡ answer (perform c s)
  unfolding run
  run-answer c s = go (perform c s).0 (perform c s).1
    where
      go :
          (r : Outcome Object) (t : Store)
          → run order (done r >>= λ o. done (ok (o, false))) t ≡ answer (r, t)
      go (ok o) t = refl
      go (err e) t = refl
      go panic t = refl

  run-update_existing :
      (key : Key) (existing : Object) (s : Store)
      → run order (update_existing lib ctx name key obj_info uv strategy gr existing) s
        ≡ write_back key s (accept_update lib ctx name obj_info uv strategy gr existing)
  unfolding update_existing run
  run-update_existing key existing s =
      go (accept_update lib ctx name obj_info uv strategy gr existing)
    where
      go :
          (r : Outcome Object)
          → run order
              (done r >>= λ obj.
                Handler.call (Call.update key obj) (λ q. done q >>= λ o. done (ok (o, false))))
              s
            ≡ write_back key s r
      go (ok o) = run-answer (Call.update key o) s
      go (err e) = refl
      go panic = refl

  -- An update of an object that exists is the test of `accept_update` and one write.
  pub run-update_on_store :
      (cv : ValidateObjectFunc Ctx) (force : Bool) (key : Key) (existing : Object) (s : Store)
      → key_from_context lib ctx name strategy.namespace_scoped gr ≡ ok key
      → lookup key s.items ≡ some existing
      → run order (update_on_store lib ctx name obj_info cv uv force strategy gr) s
        ≡ write_back key s (accept_update lib ctx name obj_info uv strategy gr existing)
  unfolding update_on_store run perform Store.get
  run-update_on_store cv force key existing s k e =
      rw (k, update_on_store, run)
        (rw (e, Store.get, perform, run) (run-update_existing key existing s))

  -- A successful update of an object that exists accepted what the client sent, and wrote it.
  pub update_on_store-eq-ok :
      (cv : ValidateObjectFunc Ctx) (force : Bool) (key : Key) (existing : Object) (s t : Store)
      (obj : Object) (created : Bool)
      → key_from_context lib ctx name strategy.namespace_scoped gr ≡ ok key
      → lookup key s.items ≡ some existing
      → run order (update_on_store lib ctx name obj_info cv uv force strategy gr) s
        ≡ (ok (obj, created), t)
      → (accepted : Object) × Accepted lib ctx name obj_info uv strategy gr existing accepted
        × Wrote key accepted s obj t
        × (created ≡ false)
  update_on_store-eq-ok cv force key existing s t obj created k e h =
      let (accepted, a, w, c) =
        write_back-eq-ok key s t (accept_update lib ctx name obj_info uv strategy gr existing) obj
          created (sym (run-update_on_store cv force key existing s k e) ∙ h) in
      (
        accepted,
        accept_update-Accepted lib ctx name obj_info uv strategy gr existing accepted a,
        update-Wrote key accepted obj s t w,
        c,
      )
