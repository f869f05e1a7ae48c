-- ===== src/Store/Refinement/Traces.antt =====
-- Sequences of calls of the store.
use simple_api_server.Prelude.{
  ◌+◌, ◌%◌, ◌≤◌, ◌<◌, ◌≡◌, refl, inl, inr, ◌⊎◌, Option-cases, List, [], ◌∷◌, arith,
}
use simple_api_server.Prelude.Decimal.{uint64_mod}
use simple_api_server.Kube.{ApiError, cannot_stamp, no_object_meta}
use simple_api_server.Kube.Outcome.{Outcome, ok, err}
use simple_api_server.Api.{Object, accessor}
use simple_api_server.Store
use simple_api_server.Store.{
  Key, key_eq, lookup, put, remove, Store, bump_and_stamp_locked, store_at,
}
use simple_api_server.Store.Items.{Unique, put-Unique, remove-Unique}
use simple_api_server.Store.Invariant.{IsValid, create-IsValid, update-IsValid, delete-IsValid}
use simple_api_server.Store.Calls.{Call, get, create, update, delete, perform}
use simple_api_server.Store.Refinement.{View, view, perform_spec, perform-refines}

-- The results of calls made one after the other, and the last state.
module _ {S : Type 0} (step : Call → S → Outcome Object × S) where
  unfoldable pub run_calls : List Call → S → List (Outcome Object) × S
  run_calls [] s = ([], s)
  run_calls (c ∷ cs) s = let (r, s') = step c s in let (rs, t) = run_calls cs s' in (r ∷ rs, t)

write-Unique :
    (k : Key) (o : Object) (s : Store)
    → Unique s.items
    → Unique (store_at k (bump_and_stamp_locked o s)).1.items
unfolding store_at bump_and_stamp_locked
write-Unique k o s u = elim (Option-cases (accessor o)) [
  | inl e ↦ rw (e, bump_and_stamp_locked, store_at) u
  | inr (m, e) ↦ rw (e, bump_and_stamp_locked, store_at) (put-Unique k _ s.items u)
]

pub perform-Unique : (c : Call) (s : Store) → Unique s.items → Unique (perform c s).1.items
unfolding perform
perform-Unique (get k) s u = u
perform-Unique (create k o) s u = elim (Option-cases (lookup k s.items)) [
  | inl e ↦ rw (e, Store.create) (write-Unique k o s u)
  | inr (_, e) ↦ rw (e, Store.create) u
]
perform-Unique (update k o) s u = elim (Option-cases (lookup k s.items)) [
  | inl e ↦ rw (e, Store.update) u
  | inr (_, e) ↦ rw (e, Store.update) (write-Unique k o s u)
]
perform-Unique (delete k) s u = elim (Option-cases (lookup k s.items)) [
  | inl e ↦ rw (e, Store.delete) u
  | inr (_, e) ↦ rw (e, Store.delete) (remove-Unique k s.items u)
]

abbrev pub forget_all : List (Outcome Object) × Store → List (Outcome Object) × View
forget_all (rs, s) = (rs, view s)

-- On a store without repeated keys, any sequence of Get, Create, Update and Delete has the results
-- that it has on the view of the store, a function from keys to objects with a counter, and ends in
-- a store with the view that the sequence leads to there.
pub run_calls-refines :
    (cs : List Call) (s : Store)
    → Unique s.items
    → forget_all (run_calls perform cs s) ≡ run_calls perform_spec cs (view s)
unfolding run_calls
run_calls-refines [] s u = refl
run_calls-refines (c ∷ cs) s u =
    rw (← perform-refines c s u, ← run_calls-refines cs (perform c s).1 (perform-Unique c s u))

-- Each of Get, Create, Update and Delete keeps the invariant of the store, if the counter has room
-- for one more version: no key twice, every object stamped with a version that is not above the
-- counter, no two with the same.
pub perform-IsValid :
    (c : Call) (s : Store) → IsValid s → s.rv + 1 < uint64_mod → IsValid (perform c s).1
unfolding perform
perform-IsValid (get k) s v h = v
perform-IsValid (create k o) s v h = create-IsValid k o s v h
perform-IsValid (update k o) s v h = update-IsValid k o s v h
perform-IsValid (delete k) s v h = delete-IsValid k s v h

-- One call moves the counter by one at most.
pub rv-perform :
    (c : Call) (s : Store)
    → s.rv + 1 < uint64_mod
    → (s.rv ≤ (perform c s).1.rv) × ((perform c s).1.rv ≤ s.rv + 1)
unfolding perform store_at bump_and_stamp_locked
rv-perform (get k) s h = omega arith
rv-perform c s h = ground arith

-- A call that fails leaves the store as it was, or it fails because the object that was to be
-- written has no metadata, and then leaves all but the counter, which has advanced.
pub perform_error :
    (c : Call) (s : Store) (e : ApiError)
    → (perform c s).0 ≡ err e
    → ((perform c s).1 ≡ s)
      ⊎ ((e ≡ cannot_stamp no_object_meta)
          × ((perform c s).1 ≡ record s { rv = (s.rv + 1) % uint64_mod }))
unfolding perform store_at bump_and_stamp_locked
perform_error (get k) s e h = inl refl
perform_error (create k o) s e h = ground arith
perform_error (update k o) s e h = ground arith
perform_error (delete k) s e h = ground arith

write_atomic :
    (k : Key) (o : Object) (s : Store)
    → let (r, t) = store_at k (bump_and_stamp_locked o s) in
      (t.items ≡ s.items) ⊎ ((p : Object) × (r ≡ ok p))
unfolding store_at bump_and_stamp_locked
write_atomic k o s = elim (Option-cases (accessor o)) [
  | inl e ↦ inl (rw (e, bump_and_stamp_locked, store_at))
  | inr (m, e) ↦ rw (e, bump_and_stamp_locked, store_at) (inr (_, refl))
]

-- No call panics: it gives an object, or leaves every object as it is.
pub perform_atomic :
    (c : Call) (s : Store)
    → ((perform c s).1.items ≡ s.items) ⊎ ((o : Object) × ((perform c s).0 ≡ ok o))
unfolding perform
perform_atomic (get k) s = inl refl
perform_atomic (create k o) s = elim (Option-cases (lookup k s.items)) [
  | inl e ↦ rw (e, Store.create) (write_atomic k o s)
  | inr (_, e) ↦ inl (rw (e, Store.create))
]
perform_atomic (update k o) s = elim (Option-cases (lookup k s.items)) [
  | inl e ↦ inl (rw (e, Store.update))
  | inr (_, e) ↦ rw (e, Store.update) (write_atomic k o s)
]
perform_atomic (delete k) s = elim (Option-cases (lookup k s.items)) [
  | inl e ↦ inl (rw (e, Store.delete))
  | inr (p, e) ↦ inr (p, rw (e, Store.delete))
]
