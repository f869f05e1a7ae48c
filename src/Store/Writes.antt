-- ===== src/Store/Writes.antt =====
-- What a successful Create or Update leaves in the store.
use simple_api_server.Prelude.{
  ℕ, ◌+◌, ◌%◌, ◌≡◌, ◌≢◌, refl, sym, ap, ◌∙◌, inl, inr, Option-cases, none, some,
}
use simple_api_server.Prelude.Decimal.{uint64_mod, format_uint}
use simple_api_server.Kube.{ObjectMeta}
use simple_api_server.Kube.Outcome.{Outcome, ok}
use simple_api_server.Api.{Object, task, task_list, other_object, accessor, set_object_meta}
use simple_api_server.Store.{
  Key, lookup, put, Store, bump_and_stamp_locked, store_at, create, update,
}
use simple_api_server.Store.Items.{key_eq_refl, key_eq_ne, lookup-put}
use simple_api_server.Store.Invariant.{stamp, stamp-set_object_meta}

-- `t` is `s` with `stored` at the key: the object `o` with the next version of the store stamped on
-- it. Nothing else changed.
pub record Wrote (key : Key) (o : Object) (s : Store) (stored : Object) (t : Store) : Type 0 where
  pub meta : ObjectMeta
  pub had_meta : accessor o ≡ some meta
  pub counter : t.rv ≡ (s.rv + 1) % uint64_mod
  pub stored_as : stored ≡ set_object_meta (record meta { resource_version = format_uint t.rv }) o
  pub at_key : lookup key t.items ≡ some stored
  pub elsewhere : (j : Key) → key ≢ j → lookup j t.items ≡ lookup j s.items

pub stamp-Wrote :
    {key : Key} {o stored : Object} {s t : Store}
    → Wrote key o s stored t
    → stamp stored ≡ some (format_uint t.rv)
stamp-Wrote {o} {t} w =
    ap stamp w.stored_as ∙ stamp-set_object_meta o w.meta (format_uint t.rv) w.had_meta

pub accessor-set_object_meta :
    (o : Object) (m n : ObjectMeta) → accessor o ≡ some m → accessor (set_object_meta n o) ≡ some n
accessor-set_object_meta (task x) m n h = refl
accessor-set_object_meta (task_list l) m n h = cc
accessor-set_object_meta (other_object none) m n h = cc
accessor-set_object_meta (other_object (some _)) m n h = refl

pub accessor-Wrote :
    {key : Key} {o stored : Object} {s t : Store} (w : Wrote key o s stored t)
    → accessor stored ≡ some (record w.meta { resource_version = format_uint t.rv })
accessor-Wrote {o} {t} w =
    ap accessor w.stored_as
    ∙ accessor-set_object_meta o w.meta (record w.meta { resource_version = format_uint t.rv })
        w.had_meta

write-Wrote :
    (key : Key) (o stored : Object) (s t : Store)
    → store_at key (bump_and_stamp_locked o s) ≡ (ok stored, t)
    → Wrote key o s stored t
unfolding store_at bump_and_stamp_locked
write-Wrote key o stored s t h = elim (Option-cases (accessor o)) [
  | inl e ↦ absurd (cc (rw (e, bump_and_stamp_locked, store_at) at h))
  | inr (m, e) ↦ go m e (rw (e, bump_and_stamp_locked, store_at) at h)
]
  where
    go :
        (m : ObjectMeta)
        → accessor o ≡ some m
        → ◌≡◌ {A = Outcome Object × Store}
            (let n = (s.rv + 1) % uint64_mod in
              let p = set_object_meta (record m { resource_version = format_uint n }) o in
              (ok p, record s { items = put key p s.items; rv = n }))
            (ok stored, t)
        → Wrote key o s stored t
    go m e h =
        let stamped : ℕ → Object =
          λ n. set_object_meta (record m { resource_version = format_uint n }) o in
        let next = (s.rv + 1) % uint64_mod in
        let rv : next ≡ t.rv = ap (λ x. x.1.rv) h in
        let items : put key (stamped next) s.items ≡ t.items = ap (λ x. x.1.items) h in
        let same : stamped next ≡ stored = cc in
        record {
          meta = m;
          had_meta = e;
          counter = sym rv;
          stored_as = sym same ∙ ap stamped rv;
          at_key = rw (← items, lookup-put, key_eq_refl key) (ap some same);
          elsewhere = λ j differ. rw (← items, lookup-put, key_eq_ne key j differ) refl;
        }

-- A Create that succeeds stamps the object and stores it at its key, where there was none.
pub create-Wrote :
    (key : Key) (o stored : Object) (s t : Store)
    → create key o s ≡ (ok stored, t)
    → Wrote key o s stored t
unfolding create
create-Wrote key o stored s t h = elim (Option-cases (lookup key s.items)) [
  | inl e ↦ write-Wrote key o stored s t (rw (e, create) at h)
  | inr (p, e) ↦ absurd (cc (rw (e, create) at h))
]

pub update-Wrote :
    (key : Key) (o stored : Object) (s t : Store)
    → update key o s ≡ (ok stored, t)
    → Wrote key o s stored t
unfolding update
update-Wrote key o stored s t h = elim (Option-cases (lookup key s.items)) [
  | inl e ↦ absurd (cc (rw (e, update) at h))
  | inr (p, e) ↦ write-Wrote key o stored s t (rw (e, update) at h)
]
