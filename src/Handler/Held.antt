-- ===== src/Handler/Held.antt =====
-- What the store holds while handlers that keep a property of its objects run.
use simple_api_server.Prelude.{
  ℕ, ◌≡◌, sym, subst, ◌⊎◌, inl, inr, Option-cases, some, List, [], ◌∷◌, GoString, arith, ◌==◌,
  Bool-cases,
}
use simple_api_server.Kube.{ObjectMeta}
use simple_api_server.Kube.Outcome.{ok}
use simple_api_server.Api.{Object, accessor, set_object_meta}
use simple_api_server.Store
use simple_api_server.Store.{Key, Store, lookup, put, remove, bump_and_stamp_locked, store_at}
use simple_api_server.Store.Items.{key_eq_iff, lookup-put, put-Unique, lookup-remove, remove-Unique}
use simple_api_server.Store.Calls.{Call, perform}
use simple_api_server.Handler.{Handler, done, call, list, current_resource_version, Order, step}
use simple_api_server.Handler.Interleaving.{System, turn, interleave}
use simple_api_server.Handler.Keeping.{Holds, WritesIn, Keeps}

module _ (P : Key → Object → Type 0)
    (stable : (k : Key) (o : Object) (m : ObjectMeta) (version : GoString)
      → accessor o ≡ some m
      → P k o
      → P k (set_object_meta (record m { resource_version = version }) o)) where
  put-Holds :
      (k : Key) (o : Object) (s : Store) (rv : ℕ)
      → P k o
      → Holds P s
      → Holds P (record s { items = put k o s.items; rv = rv })
  put-Holds k o s rv q v = record {
    unique = put-Unique k o s.items v.unique;
    each = λ j p e. elim (written j p e) [
      | inl (same, eq) ↦ subst (λ i. P i p) same (subst (P k) (sym eq) q)
      | inr old ↦ v.each j p old
    ];
  }
    where
      written :
          (j : Key) (p : Object)
          → lookup j (put k o s.items) ≡ some p
          → ((k ≡ j) × (p ≡ o)) ⊎ (lookup j s.items ≡ some p)
      written j p q = ground (arith, key_eq_iff k j, lookup-put k j o s.items)

  write-Holds :
      (k : Key) (o : Object) (s : Store)
      → P k o
      → Holds P s
      → Holds P (store_at k (bump_and_stamp_locked o s)).1
  unfolding store_at bump_and_stamp_locked
  write-Holds k o s q v = elim (Option-cases (accessor o)) [
    | inl e ↦ rw (e, bump_and_stamp_locked, store_at) (record { unique = v.unique; each = v.each })
    | inr (m, e) ↦
        rw (e, bump_and_stamp_locked, store_at) (put-Holds k _ s _ (stable k o m _ e q) v)
  ]

  create-Holds :
      (k : Key) (o : Object) (s : Store) → P k o → Holds P s → Holds P (Store.create k o s).1
  unfolding Store.create
  create-Holds k o s q v = elim (Option-cases (lookup k s.items)) [
    | inl e ↦ rw (e, Store.create) (write-Holds k o s q v)
    | inr (p, e) ↦ rw (e, Store.create) v
  ]

  update-Holds :
      (k : Key) (o : Object) (s : Store) → P k o → Holds P s → Holds P (Store.update k o s).1
  unfolding Store.update
  update-Holds k o s q v = elim (Option-cases (lookup k s.items)) [
    | inl e ↦ rw (e, Store.update) v
    | inr (p, e) ↦ rw (e, Store.update) (write-Holds k o s q v)
  ]

  delete-Holds : (k : Key) (s : Store) → Holds P s → Holds P (Store.delete k s).1
  unfolding Store.delete
  delete-Holds k s v = elim (Option-cases (lookup k s.items)) [
    | inl e ↦ rw (e, Store.delete) v
    | inr (p, e) ↦
        rw (e, Store.delete)
          (record {
            unique = remove-Unique k s.items v.unique;
            each = λ j o q. v.each j o (kept j o q);
          })
  ]
    where
      kept :
          (j : Key) (p : Object) → lookup j (remove k s.items) ≡ some p → lookup j s.items ≡ some p
      kept j p q = ground (arith, lookup-remove k j s.items v.unique)

  got : (k : Key) (s : Store) → Holds P s → (o : Object) → Store.get k s ≡ ok o → P k o
  unfolding Store.get
  got k s v o h = elim (Option-cases (lookup k s.items)) [
    | inl e ↦ absurd (cc (rw (e, Store.get) at h))
    | inr (p, e) ↦ v.each k o (ground (arith, e))
  ]

  module _ {A : Type 0} (order : Order) where
    step-Holds :
        (h : Handler A) (s : Store)
        → Holds P s
        → WritesIn P h
        → Holds P (step order h s).1 × WritesIn P (step order h s).0
    unfolding step perform
    step-Holds (done r) s v p = (v, p)
    step-Holds (call (Call.get k) f) s v p = (v, p (Store.get k s) (got k s v))
    step-Holds (call (Call.create k o) f) s v (q, p) = (create-Holds k o s q v, p _)
    step-Holds (call (Call.update k o) f) s v (q, p) = (update-Holds k o s q v, p _)
    step-Holds (call (Call.delete k) f) s v p = (delete-Holds k s v, p _)
    step-Holds (list ns f) s v p = (v, p _)
    step-Holds (current_resource_version f) s v p = (v, p _)

    pub interleave-Holds :
        (schedule : List ℕ) (sys : System A)
        → Holds P sys.store
        → ((i : ℕ) → Keeps P (sys.threads i))
        → Holds P (interleave order schedule sys).store
    unfolding interleave turn
    interleave-Holds [] sys v p = v
    interleave-Holds (i ∷ schedule) sys v p =
        let (v', p') = step-Holds (sys.threads i) sys.store v (p i).within in
        interleave-Holds schedule (turn order i sys) v' (λ j. elim (Bool-cases (i == j)) [
          | inl e ↦ rw (e) (record { within = p' })
          | inr e ↦ rw (e) (p j)
        ])
