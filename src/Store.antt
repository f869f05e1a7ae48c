-- ===== src/Store.antt =====
-- pkg/storage/inmemory/store.go: the store behind every registry.
--
-- Each method holds the mutex for its whole body, so a method is one atomic step here, from a
-- store to its result and the next store. Objects are values, which nobody can write into, and so
-- without the copies that store.go makes: those, and the pointers that they are for, are in Memory.
pub mod Items
pub mod Calls
pub mod Invariant
pub mod Listing
pub mod Writes
pub mod Refinement
pub use Items.{Key}
unfoldable pub use Items.{key_eq, lookup, put, remove}
use simple_api_server.Prelude.{
  ℕ, ◌+◌, ◌%◌, Bool, not, ◌&&◌, none, some, List, [], ◌∷◌, GoString, str_eq, if◌then◌else◌, length,
}
use simple_api_server.Prelude.Decimal.{uint64_mod, format_uint}
use simple_api_server.Kube.{GroupResource, not_found, already_exists, cannot_stamp, no_object_meta}
use simple_api_server.Kube.Outcome.{Outcome, ok, err}
use simple_api_server.Api.{Object, accessor, set_object_meta}

pub record Store : Type 0 where
  pub items : List (Key × Object)
  pub rv : ℕ  -- uint64
  pub gr : GroupResource

-- New
abbrev pub new : GroupResource → Store
new gr = record { items = []; rv = 0; gr = gr }

-- bumpAndStampLocked: the counter advances whether or not the object can be stamped.
unfoldable pub bump_and_stamp_locked : Object → Store → Outcome Object × Store
bump_and_stamp_locked obj s =
    let s' = record s { rv = (s.rv + 1) % uint64_mod } in
    elim (accessor obj) [
      | none ↦ (err (cannot_stamp no_object_meta), s')
      | some m ↦ (ok (set_object_meta (record m { resource_version = format_uint s'.rv }) obj), s')
    ]

-- The rest of Create and Update: `s.items[key] = stored`, unless the stamp failed.
unfoldable pub store_at : Key → Outcome Object × Store → Outcome Object × Store
store_at key (ok stored, s) = (ok stored, record s { items = put key stored s.items })
store_at key (e, s) = (e, s)

unfoldable pub create : Key → Object → Store → Outcome Object × Store
unfolding bump_and_stamp_locked store_at
create key obj s = elim (lookup key s.items) [
  | some _ ↦ (err (already_exists s.gr key.name), s)
  | none ↦ store_at key (bump_and_stamp_locked obj s)
]

unfoldable pub get : Key → Store → Outcome Object
get key s = elim (lookup key s.items) [ none ↦ err (not_found s.gr key.name) | some obj ↦ ok obj ]

-- The loop of List over the map, in the order in which the map is walked.
unfoldable pub select : GoString → List (Key × Object) → List Object
select namespace [] = []
select namespace ((k, v) ∷ m) =
    let rest = select namespace m in
    if not (str_eq namespace []) && not (str_eq k.namespace namespace) then rest else v ∷ rest

-- The language does not fix the order in which `range` walks a map; `order` is the order taken.
unfoldable pub list : (List (Key × Object) → List (Key × Object)) → GoString → Store → List Object
unfolding select
list order namespace s = select namespace (order s.items)

unfoldable pub update : Key → Object → Store → Outcome Object × Store
unfolding bump_and_stamp_locked store_at
update key obj s = elim (lookup key s.items) [
  | none ↦ (err (not_found s.gr key.name), s)
  | some _ ↦ store_at key (bump_and_stamp_locked obj s)
]

unfoldable pub delete : Key → Store → Outcome Object × Store
delete key s = elim (lookup key s.items) [
  | none ↦ (err (not_found s.gr key.name), s)
  | some obj ↦ (ok obj, record s { items = remove key s.items; rv = (s.rv + 1) % uint64_mod })
]

abbrev pub current_resource_version : Store → ℕ
current_resource_version s = s.rv

-- Len
abbrev pub len : Store → ℕ
len s = length s.items
