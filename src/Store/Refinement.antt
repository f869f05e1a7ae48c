-- ===== src/Store/Refinement.antt =====
-- The contract of the store: a function from keys to objects and a counter. Any sequence of calls
-- has the same results on the store as on that view of it.
pub mod Traces
use simple_api_server.Prelude.{
  ℕ, ◌+◌, ◌%◌, ◌≡◌, refl, ap, inl, inr, Option, Option-cases, none, some, Bool, arith, fun_ext,
  if◌then◌else◌,
}
use simple_api_server.Prelude.Decimal.{uint64_mod, format_uint}
use simple_api_server.Kube.{
  GroupResource, ObjectMeta, not_found, already_exists, cannot_stamp, no_object_meta,
}
use simple_api_server.Kube.Outcome.{Outcome, ok, err}
use simple_api_server.Api.{Object, accessor, set_object_meta}
use simple_api_server.Store
use simple_api_server.Store.{
  Key, key_eq, lookup, put, remove, Store, bump_and_stamp_locked, store_at,
}
use simple_api_server.Store.Calls.{Call, get, create, update, delete, perform}
use simple_api_server.Store.Items.{Unique, lookup-put, put-Unique, lookup-remove, remove-Unique}

-- What a client can tell of a store.
pub record View : Type 0 where
  pub at : Key → Option Object
  pub rv : ℕ
  pub gr : GroupResource

abbrev pub view : Store → View
view s = record { at = λ k. lookup k s.items; rv = s.rv; gr = s.gr }

abbrev pub set_at : Key → Option Object → (Key → Option Object) → Key → Option Object
set_at k o f j = if key_eq k j then o else f j

abbrev next : ℕ → ℕ
next n = (n + 1) % uint64_mod

-- A write hands out the next version, and stores the object under it if the object has metadata.
write_spec : Key → Object → Option ObjectMeta → View → Outcome Object × View
write_spec k o none w = (err (cannot_stamp no_object_meta), record w { rv = next w.rv })
write_spec k o (some m) w =
    let o' = set_object_meta (record m { resource_version = format_uint (next w.rv) }) o in
    (ok o', record w { at = set_at k (some o') w.at; rv = next w.rv })

call_spec : Call → Option Object → View → Outcome Object × View
unfolding write_spec
call_spec (get k) none w = (err (not_found w.gr k.name), w)
call_spec (get k) (some o) w = (ok o, w)
call_spec (create k o) none w = write_spec k o (accessor o) w
call_spec (create k o) (some _) w = (err (already_exists w.gr k.name), w)
call_spec (update k o) none w = (err (not_found w.gr k.name), w)
call_spec (update k o) (some _) w = write_spec k o (accessor o) w
call_spec (delete k) none w = (err (not_found w.gr k.name), w)
call_spec (delete k) (some o) w = (ok o, record w { at = set_at k none w.at; rv = next w.rv })

abbrev key_of : Call → Key
key_of (get k) = k
key_of (create k _) = k
key_of (update k _) = k
key_of (delete k) = k

pub perform_spec : Call → View → Outcome Object × View
unfolding call_spec
perform_spec c w = call_spec c (w.at (key_of c)) w

abbrev pub forget : Outcome Object × Store → Outcome Object × View
forget (r, s) = (r, view s)

write-refines :
    (k : Key) (o : Object) (s : Store)
    → forget (store_at k (bump_and_stamp_locked o s)) ≡ write_spec k o (accessor o) (view s)
unfolding store_at bump_and_stamp_locked write_spec
write-refines k o s = elim (Option-cases (accessor o)) [
  | inl e ↦ rw (e, bump_and_stamp_locked, store_at, write_spec)
  | inr (m, e) ↦
      rw (e, bump_and_stamp_locked, store_at, write_spec)
        (λ i. (
          ok (stored m),
          record {
            at = λ j. lookup-put k j (stored m) s.items i;
            rv = (s.rv + 1) % uint64_mod;
            gr = s.gr;
          },
        ))
]
  where
    stored : ObjectMeta → Object
    stored m =
        set_object_meta (record m { resource_version = format_uint ((s.rv + 1) % uint64_mod) }) o

pub perform-refines :
    (c : Call) (s : Store) → Unique s.items → forget (perform c s) ≡ perform_spec c (view s)
unfolding perform perform_spec
perform-refines (get k) s u = elim (Option-cases (lookup k s.items)) [
  | inl e ↦ rw (e, perform_spec, call_spec, Store.get)
  | inr (p, e) ↦ rw (e, perform_spec, call_spec, Store.get)
]
perform-refines (create k o) s u = elim (Option-cases (lookup k s.items)) [
  | inl e ↦ rw (e, perform_spec, call_spec, Store.create) (write-refines k o s)
  | inr (p, e) ↦ rw (e, perform_spec, call_spec, Store.create)
]
perform-refines (update k o) s u = elim (Option-cases (lookup k s.items)) [
  | inl e ↦ rw (e, perform_spec, call_spec, Store.update)
  | inr (p, e) ↦ rw (e, perform_spec, call_spec, Store.update) (write-refines k o s)
]
perform-refines (delete k) s u = elim (Option-cases (lookup k s.items)) [
  | inl e ↦ rw (e, perform_spec, call_spec, Store.delete)
  | inr (p, e) ↦
      rw (e, perform_spec, call_spec, Store.delete)
        (λ i. (
          ok p,
          record {
            at = λ j. lookup-remove k j s.items u i;
            rv = (s.rv + 1) % uint64_mod;
            gr = s.gr;
          },
        ))
]
