-- ===== src/Registry/Race.antt =====
-- Two updates from the same read, with their calls of the store interleaved: Get and Update are two
-- steps of the store, and nothing holds the object between them.
use simple_api_server.Prelude.{
  ℕ, ◌+◌, ◌%◌, ◌<◌, ◌≡◌, refl, ap, ◌∙◌, Bool, true, false, some, [], ◌∷◌, GoString, arith, ◌==◌,
  if◌then◌else◌,
}
use simple_api_server.Prelude.Decimal.{uint64_mod, format_uint}
use simple_api_server.Kube.{GroupResource, ObjectMeta}
use simple_api_server.Kube.Outcome.{ok}
use simple_api_server.Api.{Object, accessor, set_object_meta}
use simple_api_server.Rest.{
  Library, UpdateStrategy, UpdatedObjectInfo, ValidateObjectFunc, ValidateObjectUpdateFunc,
}
use simple_api_server.Store
use simple_api_server.Store.{Key, Store, lookup, put, bump_and_stamp_locked, store_at}
use simple_api_server.Store.Items.{lookup-put, key_eq_refl}
use simple_api_server.Store.Calls.{Call, perform}
use simple_api_server.Handler.{Handler, done, call, ◌>>=◌, Order, step}
use simple_api_server.Handler.Interleaving.{System, turn, interleave}
use simple_api_server.Strategy
use simple_api_server.Registry
use simple_api_server.Registry.{update_existing, update_on_store}
use simple_api_server.Registry.Checks.{key_from_context}
use simple_api_server.Registry.Accept.{accept_update}

-- The object with a version stamped on it.
abbrev pub stamped : ObjectMeta → ℕ → Object → Object
stamped m n o = set_object_meta (record m { resource_version = format_uint n }) o

-- An Update of the store at a key that is taken.
pub update-eq-ok :
    (key : Key) (existing o : Object) (m : ObjectMeta) (s : Store)
    → lookup key s.items ≡ some existing
    → accessor o ≡ some m
    → s.rv + 1 < uint64_mod
    → (t : Store) × (Store.update key o s ≡ (ok (stamped m (s.rv + 1) o), t))
      × (lookup key t.items ≡ some (stamped m (s.rv + 1) o))
      × (t.rv ≡ s.rv + 1)
unfolding Store.update store_at bump_and_stamp_locked
update-eq-ok key existing o m s found meta room =
    let wrapped : (s.rv + 1) % uint64_mod ≡ s.rv + 1 = omega arith in
    let t : Store = record s {
      items = put key (stamped m (s.rv + 1) o) s.items;
      rv = (s.rv + 1) % uint64_mod;
    } in
    (
      t,
      rw (found, Store.update) (rw (meta, bump_and_stamp_locked, store_at) (rw wrapped refl)),
      lookup-put key key (stamped m (s.rv + 1) o) s.items ∙ rw (key_eq_refl key) refl,
      wrapped,
    )

-- An update after its Get: it has decided, and is about to write.
abbrev decided : Key → Object → Handler (Object × Bool)
decided key accepted = call (Call.update key accepted) (λ r. done r >>= λ o. done (ok (o, false)))

module _ {Ctx : Type 0} (lib : Library Ctx) (order : Order) (gr : GroupResource) (ctx : Ctx)
    (name : GoString) (obj_info : UpdatedObjectInfo Ctx) (cv : ValidateObjectFunc Ctx)
    (uv : ValidateObjectUpdateFunc Ctx) (force : Bool) (strategy : UpdateStrategy Ctx) (key : Key)
    (existing accepted : Object)
    (addressed : key_from_context lib ctx name strategy.namespace_scoped gr ≡ ok key)
    (accepts : accept_update lib ctx name obj_info uv strategy gr existing ≡ ok accepted) where
  pub step-get :
      (s : Store)
      → lookup key s.items ≡ some existing
      → step order (update_on_store lib ctx name obj_info cv uv force strategy gr) s
        ≡ (decided key accepted, s)
  unfolding update_on_store update_existing step perform Store.get
  step-get s found =
      rw (addressed, update_on_store, step)
        (rw (found, Store.get, perform) (rw (accepts, update_existing)))

pub step-decided :
    (order : Order) (key : Key) (o : Object) (s t : Store) (stored : Object)
    → Store.update key o s ≡ (ok stored, t)
    → step order (decided key o) s ≡ (done (ok (stored, false)), t)
unfolding step perform
step-decided order key o s t stored e = rw (e, perform, step) refl

module _ {A : Type 0} (order : Order) where
  -- Two threads.
  abbrev pub pair : Store → Handler A → Handler A → System A
  pair s a b = record { store = s; threads = λ i. if i == 0 then a else b }

  pub four_turns :
      (a b a' b' a'' b'' : Handler A) (s s₁ s₂ s₃ s₄ : Store)
      → step order a s ≡ (a', s₁)
      → step order b s₁ ≡ (b', s₂)
      → step order a' s₂ ≡ (a'', s₃)
      → step order b' s₃ ≡ (b'', s₄)
      → ((interleave order (0 ∷ 1 ∷ 0 ∷ 1 ∷ []) (pair s a b)).store ≡ s₄)
        × ((interleave order (0 ∷ 1 ∷ 0 ∷ 1 ∷ []) (pair s a b)).threads 0 ≡ a'')
        × ((interleave order (0 ∷ 1 ∷ 0 ∷ 1 ∷ []) (pair s a b)).threads 1 ≡ b'')
  unfolding interleave turn
  four_turns a b a' b' a'' b'' s s₁ s₂ s₃ s₄ e₁ e₂ e₃ e₄ =
      rw (e₁, interleave, turn)
        (rw (e₂, interleave, turn)
          (rw (e₃, interleave, turn) (rw (e₄, interleave, turn) (refl, refl, refl))))

module _ {Ctx : Type 0} (lib : Library Ctx) (order : Order) (gr : GroupResource) (ctx ctx' : Ctx)
    (name : GoString) (first second : UpdatedObjectInfo Ctx) (cv cv' : ValidateObjectFunc Ctx)
    (uv uv' : ValidateObjectUpdateFunc Ctx) (force force' : Bool) (key : Key) (s : Store)
    (existing a b : Object) (m n : ObjectMeta) where
  -- Two updates of one object can both succeed from the same read: if each one is accepted against
  -- the stored object, both make their Get before the first makes its Update, and the counter has
  -- room for two versions, then both are answered
  -- with success, the store ends with the object of the second at a version two higher, and nothing
  -- is left of the first.
  pub lost_update :
      key_from_context lib ctx name true gr ≡ ok key
      → key_from_context lib ctx' name true gr ≡ ok key
      → lookup key s.items ≡ some existing
      → s.rv + 2 < uint64_mod
      → accept_update lib ctx name first uv (Strategy.update_strategy lib) gr existing ≡ ok a
      → accept_update lib ctx' name second uv' (Strategy.update_strategy lib) gr existing ≡ ok b
      → accessor a ≡ some m
      → accessor b ≡ some n
      → let end = interleave order (0 ∷ 1 ∷ 0 ∷ 1 ∷ []) (
          pair order s
            (Registry.update lib gr ctx name first cv uv force)
            (Registry.update lib gr ctx' name second cv' uv' force')) in
        (end.threads 0 ≡ done (ok (stamped m (s.rv + 1) a, false)))
        × (end.threads 1 ≡ done (ok (stamped n (s.rv + 2) b, false)))
        × (lookup key end.store.items ≡ some (stamped n (s.rv + 2) b))
        × (end.store.rv ≡ s.rv + 2)
  unfolding Registry.update
  lost_update k k' found room accepts accepts' em en =
      let (t, wrote, at, rv) = update-eq-ok key existing a m s found em (omega arith) in
      let (u, wrote', at', rv') =
        update-eq-ok key (stamped m (s.rv + 1) a) b n t at en (omega arith) in
      let next : t.rv + 1 ≡ s.rv + 2 = omega arith in
      let (e, f, g) =
        four_turns order _ _ _ _ _ _ s s s t u
          (step-get lib order gr ctx name first cv uv force (Strategy.update_strategy lib) key
            existing a k accepts s found)
          (step-get lib order gr ctx' name second cv' uv' force' (Strategy.update_strategy lib) key
            existing b k' accepts' s found)
          (step-decided order key a s t _ wrote) (step-decided order key b t u _ wrote') in
      (
        f,
        g ∙ ap (λ v. done (ok (stamped n v b, false))) next,
        ap (λ v. lookup key v.items) e ∙ at' ∙ ap (λ v. some (stamped n v b)) next,
        ap (λ v. v.rv) e ∙ rv' ∙ next,
      )
