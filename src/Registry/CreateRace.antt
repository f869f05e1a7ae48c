-- ===== src/Registry/CreateRace.antt =====
-- Two creations of one Task at the same time: a Create is one call of the store.
use simple_api_server.Prelude.{◌+◌, ◌%◌, ◌<◌, ◌≡◌, refl, ap, ◌∙◌, none, some, [], ◌∷◌, arith}
use simple_api_server.Prelude.Decimal.{uint64_mod}
use simple_api_server.Kube.{GroupResource, ObjectMeta, already_exists}
use simple_api_server.Kube.Outcome.{Outcome, ok, err}
use simple_api_server.Api.{Object, accessor}
use simple_api_server.Rest.{Library, ValidateObjectFunc}
use simple_api_server.Store
use simple_api_server.Store.{Key, Store, lookup, put, bump_and_stamp_locked, store_at}
use simple_api_server.Store.Items.{lookup-put, key_eq_refl}
use simple_api_server.Store.Calls.{perform}
use simple_api_server.Handler.{Handler, done, Order, step}
use simple_api_server.Handler.Interleaving.{turn, interleave}
use simple_api_server.Registry
use simple_api_server.Registry.Accept.{accept_create, object_key}
use simple_api_server.Registry.Race.{pair, stamped}

-- A Create of the store at a key that is free.
create-eq-ok :
    (key : Key) (o : Object) (m : ObjectMeta) (s : Store)
    → lookup key s.items ≡ none
    → accessor o ≡ some m
    → s.rv + 1 < uint64_mod
    → (t : Store) × (Store.create key o s ≡ (ok (stamped m (s.rv + 1) o), t))
      × (lookup key t.items ≡ some (stamped m (s.rv + 1) o))
      × (t.gr ≡ s.gr)
unfolding Store.create store_at bump_and_stamp_locked
create-eq-ok key o m s free meta room =
    let wrapped : (s.rv + 1) % uint64_mod ≡ s.rv + 1 = omega arith in
    let t : Store = record s {
      items = put key (stamped m (s.rv + 1) o) s.items;
      rv = (s.rv + 1) % uint64_mod;
    } in
    (
      t,
      rw (free, Store.create) (rw (meta, bump_and_stamp_locked, store_at) (rw wrapped refl)),
      lookup-put key key (stamped m (s.rv + 1) o) s.items ∙ rw (key_eq_refl key) refl,
      refl,
    )

create-taken :
    (key : Key) (o p : Object) (s : Store)
    → lookup key s.items ≡ some p
    → Store.create key o s ≡ (err (already_exists s.gr key.name), s)
unfolding Store.create
create-taken key o p s e = rw (e, Store.create)

two_turns :
    {A : Type 0} (order : Order) (a b a' b' : Handler A) (s s₁ s₂ : Store)
    → step order a s ≡ (a', s₁)
    → step order b s₁ ≡ (b', s₂)
    → ((interleave order (0 ∷ 1 ∷ []) (pair order s a b)).store ≡ s₂)
      × ((interleave order (0 ∷ 1 ∷ []) (pair order s a b)).threads 0 ≡ a')
      × ((interleave order (0 ∷ 1 ∷ []) (pair order s a b)).threads 1 ≡ b')
unfolding interleave turn
two_turns order a b a' b' s s₁ s₂ e₁ e₂ =
    rw (e₁, interleave, turn) (rw (e₂, interleave, turn) (refl, refl, refl))

module _ {Ctx : Type 0} (lib : Library Ctx) (order : Order) (gr : GroupResource) where
  step-create :
      (ctx : Ctx) (obj accepted : Object) (cv : ValidateObjectFunc Ctx) (s t : Store)
      (r : Outcome Object)
      → accept_create lib ctx obj cv ≡ ok accepted
      → Store.create (object_key accepted) accepted s ≡ (r, t)
      → step order (Registry.create lib gr ctx obj cv) s ≡ (done r, t)
  unfolding Registry.create step perform
  step-create ctx obj accepted cv s t r e f = rw (e, Registry.create, step) (rw (f, perform) refl)

  -- Of two Creates of the same key that is free, if both are accepted, the one whose call of the store
  -- comes first succeeds and its object is stored, and the other one is answered with AlreadyExists.
  -- The counter has room for one more version.
  pub create_race :
      (ctx ctx' : Ctx) (obj obj' : Object) (cv cv' : ValidateObjectFunc Ctx) (a b : Object)
      (m : ObjectMeta) (key : Key) (s : Store)
      → accept_create lib ctx obj cv ≡ ok a
      → accept_create lib ctx' obj' cv' ≡ ok b
      → object_key a ≡ key
      → object_key b ≡ key
      → accessor a ≡ some m
      → lookup key s.items ≡ none
      → s.rv + 1 < uint64_mod
      → let end = interleave order (0 ∷ 1 ∷ []) (
          pair order s
            (Registry.create lib gr ctx obj cv)
            (Registry.create lib gr ctx' obj' cv')) in
        (end.threads 0 ≡ done (ok (stamped m (s.rv + 1) a)))
        × (end.threads 1 ≡ done (err (already_exists s.gr key.name)))
        × (lookup key end.store.items ≡ some (stamped m (s.rv + 1) a))
  create_race ctx ctx' obj obj' cv cv' a b m key s e e' ka kb em free room =
      let (t, wrote, at_key, same) = create-eq-ok key a m s free em room in
      let taken = create-taken key b (stamped m (s.rv + 1) a) t at_key in
      let (f, g, h) =
        two_turns order _ _ _ _ s t t (step-create ctx obj a cv s t _ e (rw ka wrote))
          (step-create ctx' obj' b cv' t t _ e' (rw kb taken)) in
      (
        g,
        h ∙ ap (λ x. done (err (already_exists x key.name))) same,
        ap (λ x. lookup key x.items) f ∙ at_key,
      )
