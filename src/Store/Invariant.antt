-- ===== src/Store/Invariant.antt =====
-- The invariant of the store, and that every operation keeps it.
use mathlib.Core.Option
use simple_api_server.Prelude.{
  ℕ, ◌+◌, ◌%◌, ◌≤◌, ◌<◌, ◌≡◌, refl, sym, ap, ◌∙◌, ◌⊎◌, Option-cases, inl, inr, Option, none, some,
  [], arith, GoString,
}
use simple_api_server.Prelude.Decimal.{uint64_mod, format_uint, format_uint-injective}
use simple_api_server.Kube.{ObjectMeta}
use simple_api_server.Api.{Object, task, task_list, other_object, accessor, set_object_meta}
use simple_api_server.Store.{
  Key, lookup, put, remove, Store, bump_and_stamp_locked, store_at, create, update, delete,
}
use simple_api_server.Store.Items.{
  Unique, key_eq_iff, lookup-put, put-Unique, lookup-remove, remove-Unique,
}

-- The resource version that an object carries, if it has metadata.
abbrev pub stamp : Object → Option GoString
stamp o = Option.map (λ m. m.resource_version) (accessor o)

-- A map without repeated keys; every object carries a version that the counter has passed, and no
-- two carry the same.
pub record IsValid (s : Store) : Type 0 where
  pub unique : Unique s.items
  pub small : s.rv < uint64_mod
  pub stamped :
      (k : Key) (o : Object)
      → lookup k s.items ≡ some o
      → (n : ℕ) × (n ≤ s.rv) × (stamp o ≡ some (format_uint n))
  pub distinct :
      (k j : Key) (o p : Object)
      → lookup k s.items ≡ some o
      → lookup j s.items ≡ some p
      → stamp o ≡ stamp p
      → k ≡ j

pub new-IsValid : (s : Store) → s.items ≡ [] → s.rv < uint64_mod → IsValid s
unfolding lookup
new-IsValid s e h = record {
  unique = rw e tt;
  small = h;
  stamped = λ k o p. absurd (cc (ap (lookup k) e));
  distinct = λ k j o p q. absurd (cc (ap (lookup k) e));
}

module _ (s : Store) (v : IsValid s) (h : s.rv + 1 < uint64_mod) where
  -- A step that only consumes a version.
  bump-IsValid : IsValid (record s { rv = (s.rv + 1) % uint64_mod })
  bump-IsValid = record {
    unique = v.unique;
    small = omega arith;
    stamped = λ k o p. let (n, le, e) = v.stamped k o p in (n, omega arith, e);
    distinct = v.distinct;
  }

  -- The version that a write hands out is on no object of the store.
  stamp-fresh :
      (k : Key) (o : Object)
      → lookup k s.items ≡ some o
      → stamp o ≡ some (format_uint (s.rv + 1))
      → ⊥
  stamp-fresh k o p e =
      let (n, le, f) = v.stamped k o p in
      let same : format_uint n ≡ format_uint (s.rv + 1) = cc in
      omega (arith, format_uint-injective n (s.rv + 1) (omega arith) h same)

  put-IsValid :
      (k : Key) (o : Object)
      → stamp o ≡ some (format_uint (s.rv + 1))
      → IsValid (record s { items = put k o s.items; rv = (s.rv + 1) % uint64_mod })
  put-IsValid k o e = record {
    unique = put-Unique k o s.items v.unique;
    small = omega arith;
    stamped = λ j p q. elim (written j p q) [
      | inl (_, r) ↦ (s.rv + 1, omega arith, cc)
      | inr old ↦ let (n, le, r) = v.stamped j p old in (n, omega arith, r)
    ];
    distinct = λ i j p q f g same. elim (written i p f) [
      | inl (ki, ep) ↦ elim (written j q g) [
        | inl (kj, _) ↦ sym ki ∙ kj
        | inr old ↦ absurd (stamp-fresh j q old (cc))
      ]
      | inr old ↦ elim (written j q g) [
        | inl (_, eq) ↦ absurd (stamp-fresh i p old (cc))
        | inr old' ↦ v.distinct i j p q old old' same
      ]
    ];
  }
    where
      written :
          (j : Key) (p : Object)
          → lookup j (put k o s.items) ≡ some p
          → ((k ≡ j) × (p ≡ o)) ⊎ (lookup j s.items ≡ some p)
      written j p q = ground (arith, key_eq_iff k j, lookup-put k j o s.items)

  remove-IsValid :
      (k : Key) → IsValid (record s { items = remove k s.items; rv = (s.rv + 1) % uint64_mod })
  remove-IsValid k = record {
    unique = remove-Unique k s.items v.unique;
    small = omega arith;
    stamped = λ j p q. let (n, le, e) = v.stamped j p (kept j p q) in (n, omega arith, e);
    distinct = λ i j p q f g. v.distinct i j p q (kept i p f) (kept j q g);
  }
    where
      kept :
          (j : Key) (p : Object) → lookup j (remove k s.items) ≡ some p → lookup j s.items ≡ some p
      kept j p q = ground (arith, lookup-remove k j s.items v.unique)

pub stamp-set_object_meta :
    (o : Object) (m : ObjectMeta) (version : GoString)
    → accessor o ≡ some m
    → stamp (set_object_meta (record m { resource_version = version }) o) ≡ some version
stamp-set_object_meta (task t) m version h = refl
stamp-set_object_meta (task_list l) m version h = cc
stamp-set_object_meta (other_object none) m version h = cc
stamp-set_object_meta (other_object (some n)) m version h = refl

-- bumpAndStampLocked and the assignment that follows it.
write-IsValid :
    (k : Key) (o : Object) (s : Store)
    → IsValid s
    → s.rv + 1 < uint64_mod
    → IsValid (store_at k (bump_and_stamp_locked o s)).1
unfolding store_at bump_and_stamp_locked
write-IsValid k o s v h = elim (Option-cases (accessor o)) [
  | inl e ↦ rw (e, bump_and_stamp_locked, store_at) (bump-IsValid s v h)
  | inr (m, e) ↦
      rw (e, bump_and_stamp_locked, store_at)
        (put-IsValid s v h k _
          (stamp-set_object_meta o m _ e ∙ ap (λ n. some (format_uint n)) (omega arith)))
]

-- Create, Update and Delete keep the invariant while the counter does not wrap: after any of
-- them the map has no repeated key, and every object carries a version of its own, that the
-- counter has passed.
pub create-IsValid :
    (k : Key) (o : Object) (s : Store)
    → IsValid s
    → s.rv + 1 < uint64_mod
    → IsValid (create k o s).1
unfolding create
create-IsValid k o s v h = elim (Option-cases (lookup k s.items)) [
  | inl e ↦ rw (e, create) (write-IsValid k o s v h)
  | inr (p, e) ↦ rw (e, create) v
]

pub update-IsValid :
    (k : Key) (o : Object) (s : Store)
    → IsValid s
    → s.rv + 1 < uint64_mod
    → IsValid (update k o s).1
unfolding update
update-IsValid k o s v h = elim (Option-cases (lookup k s.items)) [
  | inl e ↦ rw (e, update) v
  | inr (p, e) ↦ rw (e, update) (write-IsValid k o s v h)
]

pub delete-IsValid :
    (k : Key) (s : Store) → IsValid s → s.rv + 1 < uint64_mod → IsValid (delete k s).1
unfolding delete
delete-IsValid k s v h = elim (Option-cases (lookup k s.items)) [
  | inl e ↦ rw (e, delete) v
  | inr (p, e) ↦ rw (e, delete) (remove-IsValid s v h k)
]
