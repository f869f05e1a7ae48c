-- ===== src/Memory/TakingIn.antt =====
-- The store takes a Task in: a copy of its own, stamped, at the key.
use simple_api_server.Prelude.{
  ℕ, ◌+◌, ◌%◌, ◌≤◌, ◌<◌, ◌≡◌, ap, ap₂, ◌∙◌, subst, sym, inl, inr, true, arith, Bool-cases,
}
use simple_api_server.Prelude.Decimal.{uint64_mod, format_uint}
use simple_api_server.Kube.Outcome.{ok}
use simple_api_server.Api.{Object, Task}
use simple_api_server.Store.{Key, Store, put}
use simple_api_server.Store
use simple_api_server.DeepCopy.{TaskRef, read, set_at}
use simple_api_server.DeepCopy.Reading.{Addresses, Allocated}
use simple_api_server.Memory.{
  Memory, World, contents, copy_task, with_version, bump_and_stamp_locked, take_in,
}
use simple_api_server.Memory.Copying.{Extends, copy_task-Copied}
use simple_api_server.Memory.Clients.{Known}
use simple_api_server.Memory.Privacy.{
  IsPrivate, object_at, Keeps-Stored, map_values-Keeps, Reachable, Separated,
}
use simple_api_server.DeepCopy.Reading.{Addresses-map}
use simple_api_server.Memory.Values.{map_values, map_values-put}
use simple_api_server.Memory.ClientSteps.{Step}
use simple_api_server.Memory.Stored.{put-Stored}
use simple_api_server.Memory.Serving.{value_of, Addresses-and, Extends-Step}

-- A write through a pointer that is not in use yet.
stamp-Extends :
    (m m' : Memory) (p : ℕ) (t : TaskRef)
    → Extends m m'
    → m.next_task ≤ p
    → Extends m (record m' { tasks = set_at p t m'.tasks })
stamp-Extends m m' p t e new = record {
  arrays_grow = e.arrays_grow;
  tasks_grow = e.tasks_grow;
  arrays = e.arrays;
  tasks = λ q below. ground (arith, e.tasks q below);
}

-- What is made after the clients' last step is hidden from them.
fresh-IsPrivate :
    (m m' : Memory) (k : Known) (p : ℕ)
    → Reachable m k
    → m.next_task ≤ p
    → p < m'.next_task
    → Addresses (λ a. (m.heap.next ≤ a) × (a < m'.heap.next)) (m'.tasks p)
    → IsPrivate m' k p
fresh-IsPrivate m m' k p r new below refs = (
  below,
  elim (Bool-cases (k.tasks p)) [ inl e ↦ absurd (omega (arith, r.tasks p e)) | inr e ↦ e ],
  Addresses-map (m'.tasks p)
      (λ a (h : (m.heap.next ≤ a) × (a < m'.heap.next)). (
        h.1,
        elim (Bool-cases (k.arrays a)) [ inl e ↦ absurd (omega (arith, r.arrays a e)) | inr e ↦ e ],
      ))
      refs,
)

abbrev version_on : ℕ → Task → Task
version_on n t = record t {
  object_meta = record t.object_meta { resource_version = format_uint n };
}

pub take_in_lem :
    (key : Key) (w : World) (k : Known) (p : ℕ)
    → Separated (record { world = w; known = k })
    → k.tasks p ≡ true
    → let (stored, w') = take_in key p w in
      Separated (record { world = w'; known = k })
      × IsPrivate w'.memory k stored
      × (Store.store_at key (Store.bump_and_stamp_locked (object_at w.memory p) (value_of w))
          ≡ (ok (object_at w'.memory stored), value_of w'))
unfolding take_in copy_task bump_and_stamp_locked Store.store_at Store.bump_and_stamp_locked read
take_in_lem key w k p sep had =
    let r = sep.reachable in
    let a : Allocated w.memory.heap (w.memory.tasks p) =
      Addresses-map (w.memory.tasks p) r.arrays (r.inside p had) in
    let c = copy_task-Copied p w.memory a in
    let (stored, m) = copy_task p w.memory in
    let n = (w.rv + 1) % uint64_mod in
    let w' = (take_in key p w).1 in
    let here : w'.memory.tasks stored ≡ with_version n (m.tasks stored) = ground arith in
    let e : Step w.memory k w'.memory k =
      Extends-Step w.memory k r w'.memory
        (stamp-Extends w.memory m stored _ c.extends (omega arith)) in
    let private : IsPrivate w'.memory k stored =
      fresh-IsPrivate w.memory w'.memory k stored r (omega arith) (omega arith) (
        subst (Addresses (λ b. (w.memory.heap.next ≤ b) × (b < m.heap.next))) (sym here)
          (Addresses-and _ _ (m.tasks stored) c.fresh c.allocated)) in
    let same : contents w'.memory stored ≡ version_on n (contents w.memory p) =
      ap (read m.heap) here ∙ ap (version_on n) c.same in
    let items : map_values (object_at w'.memory) w.items ≡ map_values (object_at w.memory) w.items =
      map_values-Keeps e.keeps w.items sep.stored in
    (
      record {
        stored =
            put-Stored w'.memory k key stored w.items private
              (Keeps-Stored e.keeps w.items sep.stored);
        reachable = e.reachable;
      },
      private,
      sym (
          ap₂ (λ t i. (ok (Object.task t), record { items = i; rv = n; gr = w.gr })) same
            (map_values-put (object_at w'.memory) key stored w.items
              ∙ ap₂ (λ t i. put key (Object.task t) i) same items)),
    )
