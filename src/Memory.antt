-- ===== src/Memory.antt =====
-- pkg/storage/inmemory/store.go with the objects in memory: the store holds pointers, its callers hold
-- pointers, and each method copies what it takes in and what it hands out.
--
-- This is the store of Tasks, with the arrays of pkg/apis/tasks/v1alpha1/zz_generated.deepcopy.go as
-- DeepCopy.antt has them, and a memory of Task structs on top. Each method holds the mutex for its
-- whole body and is one step.
pub mod Copying
pub mod Clients
pub mod Privacy
pub mod Values
pub mod Learning
pub mod ClientSteps
pub mod Stored
pub mod Serving
pub mod TakingIn
pub mod Agreement
pub mod Listing
pub mod Refinement
pub mod Unshared
use simple_api_server.Prelude.{
  ℕ, ◌+◌, ◌%◌, none, some, List, [], ◌∷◌, true, false, not, ◌&&◌, GoString, str_eq,
}
use simple_api_server.Prelude.Decimal.{uint64_mod, format_uint}
use simple_api_server.Kube.{GroupResource, not_found, already_exists}
use simple_api_server.Kube.Outcome.{Outcome, ok, err}
use simple_api_server.Api.{Task}
use simple_api_server.Store.{Key, lookup, put, remove}
use simple_api_server.DeepCopy.{Heap, TaskRef, read, set_at, deep_copy}

pub record Memory : Type 0 where
  pub heap : Heap
  -- The pointer that the next `new(Task)` returns.
  pub next_task : ℕ
  pub tasks : ℕ → TaskRef

-- The Task that a pointer leads to.
abbrev pub contents : Memory → ℕ → Task
contents m p = read m.heap (m.tasks p)

-- `&Task{...}`
abbrev pub allocate : TaskRef → Memory → ℕ × Memory
allocate t m =
    (m.next_task, record m { next_task = m.next_task + 1; tasks = set_at m.next_task t m.tasks })

-- (*Task).DeepCopy of a pointer that is not nil, and DeepCopyObject.
unfoldable pub copy_task : ℕ → Memory → ℕ × Memory
unfolding deep_copy
copy_task p m = let (c, h) = deep_copy (m.tasks p) m.heap in allocate c (record m { heap = h })

-- The store, and the memory that it shares with its callers.
pub record World : Type 0 where
  pub memory : Memory
  pub items : List (Key × ℕ)
  pub rv : ℕ  -- uint64
  pub gr : GroupResource

abbrev pub with_version : ℕ → TaskRef → TaskRef
with_version n t = record t {
  object_meta = record t.object_meta { resource_version = format_uint n };
}

-- bumpAndStampLocked: it writes through the pointer. A Task has metadata, so it does not fail.
unfoldable pub bump_and_stamp_locked : ℕ → World → World
bump_and_stamp_locked p w =
    let n = (w.rv + 1) % uint64_mod in
    record w {
      memory = record w.memory {
        tasks = set_at p (with_version n (w.memory.tasks p)) w.memory.tasks;
      };
      rv = n;
    }

-- `return stored.DeepCopyObject(), nil`
unfoldable pub answer : ℕ → World → Outcome ℕ × World
unfolding copy_task
answer p w = let (out, m) = copy_task p w.memory in (ok out, record w { memory = m })

-- `stored := obj.DeepCopyObject()`, stamped and put at the key.
unfoldable pub take_in : Key → ℕ → World → ℕ × World
unfolding copy_task bump_and_stamp_locked
take_in key p w =
    let (stored, m) = copy_task p w.memory in
    let w' = bump_and_stamp_locked stored (record w { memory = m }) in
    (stored, record w' { items = put key stored w'.items })

unfoldable pub create : Key → ℕ → World → Outcome ℕ × World
unfolding take_in answer
create key p w = elim (lookup key w.items) [
  | some _ ↦ (err (already_exists w.gr key.name), w)
  | none ↦ let (stored, w') = take_in key p w in answer stored w'
]

unfoldable pub get : Key → World → Outcome ℕ × World
unfolding answer
get key w = elim (lookup key w.items) [
  | none ↦ (err (not_found w.gr key.name), w)
  | some p ↦ answer p w
]

unfoldable pub update : Key → ℕ → World → Outcome ℕ × World
unfolding take_in answer
update key p w = elim (lookup key w.items) [
  | none ↦ (err (not_found w.gr key.name), w)
  | some _ ↦ let (stored, w') = take_in key p w in answer stored w'
]

unfoldable pub delete : Key → World → Outcome ℕ × World
unfolding answer
delete key w = elim (lookup key w.items) [
  | none ↦ (err (not_found w.gr key.name), w)
  | some p ↦ answer p (record w { items = remove key w.items; rv = (w.rv + 1) % uint64_mod })
]

-- The loop of List over the map, in the order in which the map is walked: the entries that match are
-- copied one after the other.
unfoldable pub copy_matching : GoString → List (Key × ℕ) → Memory → List ℕ × Memory
copy_matching namespace [] m = ([], m)
copy_matching namespace ((k, p) ∷ visited) m =
    elim (not (str_eq namespace []) && not (str_eq k.namespace namespace)) [
      | true ↦ copy_matching namespace visited m
      | false ↦
          let (out, m₁) = copy_task p m in
          let (rest, m₂) = copy_matching namespace visited m₁ in (out ∷ rest, m₂)
    ]

-- The language does not fix the order in which `range` walks a map; `visited` is the map's entries
-- in the order taken.
unfoldable pub list : List (Key × ℕ) → GoString → World → List ℕ × World
unfolding copy_matching
list visited namespace w =
    let (outs, m) = copy_matching namespace visited w.memory in (outs, record w { memory = m })
