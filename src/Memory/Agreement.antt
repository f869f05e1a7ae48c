-- ===== src/Memory/Agreement.antt =====
-- One call of the store with pointers is the call of the store of values with what is behind them.
use simple_api_server.Prelude.{
  ℕ, ◌+◌, ◌%◌, ◌≡◌, refl, ap, ap₂, ◌∙◌, sym, inl, inr, true, Option-cases,
}
use simple_api_server.Prelude.Decimal.{uint64_mod}
use simple_api_server.Store
use simple_api_server.Store.{Key, Store, lookup, put, remove}
use simple_api_server.Store.Calls
use simple_api_server.Store.Calls.{Call}
use simple_api_server.Memory
use simple_api_server.Memory.{Memory, World, take_in, answer}
use simple_api_server.Memory.Clients.{
  PointerCall, get, create, update, delete, perform, Known, hand_out, Permits, call,
}
use simple_api_server.Memory.Privacy.{object_at, Separated}
use simple_api_server.Memory.Values.{lookup-map_values, map_values-remove}
use simple_api_server.Memory.Stored.{lookup-Stored, remove-Stored}
use simple_api_server.Memory.Serving.{value_of, found, answer_lem}
use simple_api_server.Memory.TakingIn.{take_in_lem}

-- The call of the store of values.
abbrev pub value_call : Memory → PointerCall → Call
value_call m (get key) = Call.get key
value_call m (create key p) = Call.create key (object_at m p)
value_call m (update key p) = Call.update key (object_at m p)
value_call m (delete key) = Call.delete key

-- The clients and the store stay apart, and the store of values answers the same.
pub record Agrees (c : PointerCall) (w : World) (k : Known) : Type 0 where
  pub separated : Separated (hand_out (perform c w) k)
  pub answers :
      (found (perform c w), value_of (perform c w).1)
      ≡ Calls.perform (value_call w.memory c) (value_of w)

module _ (w : World) (k : Known) (sep : Separated (record { world = w; known = k })) where
  get-Agrees : (key : Key) → Agrees (get key) w k
  unfolding perform Calls.perform
  get-Agrees key = elim (Option-cases (lookup key w.items)) [
    | inl e ↦
        let e' = lookup-map_values (object_at w.memory) key w.items in
        record {
          separated = rw (e, Memory.get) sep;
          answers = rw (e, Memory.get) (rw (e', Store.get) (rw e refl));
        }
    | inr (p, e) ↦
        let e' = lookup-map_values (object_at w.memory) key w.items in
        let (s, v, a) =
          answer_lem w k p sep (lookup-Stored w.memory k key p w.items sep.stored e) in
        record {
          separated = rw (e, Memory.get) s;
          answers = rw (e, Memory.get) (rw (e', Store.get) (rw e (ap₂ (λ x y. (x, y)) a v)));
        }
  ]

  -- The end of Create and Update.
  write_lem :
      (key : Key) (p : ℕ)
      → k.tasks p ≡ true
      → let a = answer (take_in key p w).0 (take_in key p w).1 in
        Separated (hand_out a k)
        × ((found a, value_of a.1)
            ≡ Store.store_at key (Store.bump_and_stamp_locked (object_at w.memory p) (value_of w)))
  write_lem key p had =
      let (s, private, e) = take_in_lem key w k p sep had in
      let (t, v, a) = answer_lem (take_in key p w).1 k (take_in key p w).0 s private in
      (t, ap₂ (λ x y. (x, y)) a v ∙ sym e)

  create-Agrees : (key : Key) (p : ℕ) → k.tasks p ≡ true → Agrees (create key p) w k
  unfolding perform Calls.perform
  create-Agrees key p had =
      let e' = lookup-map_values (object_at w.memory) key w.items in
      let (s, a) = write_lem key p had in
      elim (Option-cases (lookup key w.items)) [
        | inl e ↦ record {
          separated = rw (e, Memory.create) s;
          answers = rw (e, Memory.create) (rw (e', Store.create) (rw e a));
        }
        | inr (q, e) ↦ record {
          separated = rw (e, Memory.create) sep;
          answers = rw (e, Memory.create) (rw (e', Store.create) (rw e refl));
        }
      ]

  update-Agrees : (key : Key) (p : ℕ) → k.tasks p ≡ true → Agrees (update key p) w k
  unfolding perform Calls.perform
  update-Agrees key p had =
      let e' = lookup-map_values (object_at w.memory) key w.items in
      let (s, a) = write_lem key p had in
      elim (Option-cases (lookup key w.items)) [
        | inl e ↦ record {
          separated = rw (e, Memory.update) sep;
          answers = rw (e, Memory.update) (rw (e', Store.update) (rw e refl));
        }
        | inr (q, e) ↦ record {
          separated = rw (e, Memory.update) s;
          answers = rw (e, Memory.update) (rw (e', Store.update) (rw e a));
        }
      ]

  delete-Agrees : (key : Key) → Agrees (delete key) w k
  unfolding perform Calls.perform
  delete-Agrees key =
      let e' = lookup-map_values (object_at w.memory) key w.items in
      elim (Option-cases (lookup key w.items)) [
        | inl e ↦ record {
          separated = rw (e, Memory.delete) sep;
          answers = rw (e, Memory.delete) (rw (e', Store.delete) (rw e refl));
        }
        | inr (p, e) ↦
            let w' : World = record w {
              items = remove key w.items;
              rv = (w.rv + 1) % uint64_mod;
            } in
            let (s, v, a) =
              answer_lem w' k p
                (record {
                  stored = remove-Stored w.memory k key w.items sep.stored;
                  reachable = sep.reachable;
                })
                (lookup-Stored w.memory k key p w.items sep.stored e) in
            let v' : value_of w' ≡ record (value_of w) {
              items = remove key (value_of w).items;
              rv = (w.rv + 1) % uint64_mod;
            } =
              ap (λ i. record { items = i; rv = (w.rv + 1) % uint64_mod; gr = w.gr })
                (map_values-remove (object_at w.memory) key w.items) in
            record {
              separated = rw (e, Memory.delete) s;
              answers =
                  rw (e, Memory.delete)
                    (rw (e', Store.delete) (rw e (ap₂ (λ x y. (x, y)) a (v ∙ v'))));
            }
      ]

  pub perform-Agrees :
      (c : PointerCall) → Permits (record { world = w; known = k }) (call c) → Agrees c w k
  perform-Agrees (get key) h = get-Agrees key
  perform-Agrees (create key p) h = create-Agrees key p h
  perform-Agrees (update key p) h = update-Agrees key p h
  perform-Agrees (delete key) h = delete-Agrees key
