-- ===== src/Memory/ClientSteps.antt =====
-- What a client does between its calls of the store changes nothing that the store holds.
use simple_api_server.Prelude.{
  ℕ, ◌≤◌, ◌<◌, ◌≡◌, refl, inl, inr, subst, sym, Bool, true, false, ◌==◌, arith, Bool-cases,
}
use simple_api_server.DeepCopy.{Heap, TaskRef, set_at, write_strings, write_conditions}
use simple_api_server.DeepCopy.Reading.{Addresses, Agree}
use simple_api_server.DeepCopy.Isolation.{Write, to_strings, to_conditions, target}
use simple_api_server.Memory.{Memory, allocate}
use simple_api_server.Memory.Copying.{Extends}
use simple_api_server.Memory.Clients.{Known, KnowsArrays, write_array, make_array, learn}
use simple_api_server.Memory.Privacy.{IsHidden, Keeps, Reachable}
use simple_api_server.DeepCopy.Reading.{Addresses-map}
use simple_api_server.Memory.Learning.{IsGiven, learn-Keeps, learn-Reachable}

-- What a step leaves of the clients' own part, and of the rest.
pub record Step (m : Memory) (k : Known) (m' : Memory) (k' : Known) : Type 0 where
  pub keeps : Keeps m k m' k'
  pub reachable : Reachable m' k'

module _ (m : Memory) (k : Known) (r : Reachable m k) where
  pub make_task-Step :
      (t : TaskRef) → KnowsArrays t k → Step m k (allocate t m).1 (learn m.next_task t k)
  make_task-Step t knows =
      let m' = (allocate t m).1 in
      let here : m'.tasks m.next_task ≡ t = ground arith in
      let e : Extends m m' = record {
        arrays_grow = omega arith;
        tasks_grow = omega arith;
        arrays = record { strings = λ a p. refl; conditions = λ a p. refl };
        tasks = λ q below. ground arith;
      } in
      let given : Addresses (IsGiven m k m') (m'.tasks m.next_task) =
        subst (Addresses (IsGiven m k m')) (sym here)
          (Addresses-map t (λ a (h : k.arrays a ≡ true). inl h) knows) in
      subst (λ u. Step m k m' (learn m.next_task u k)) here
        (record {
          keeps = learn-Keeps m m' k e refl given r;
          reachable = learn-Reachable m m' k e refl given r;
        })

  pub assign-Step :
      (p : ℕ) (t : TaskRef)
      → k.tasks p ≡ true
      → KnowsArrays t k
      → Step m k (record m { tasks = set_at p t m.tasks }) k
  assign-Step p t has knows = record {
    keeps = record {
      arrays_grow = omega arith;
      tasks_grow = omega arith;
      tasks = λ q below hidden. elim (Bool-cases (p == q)) [
        | inl f ↦ absurd (ground arith)
        | inr f ↦ rw f
      ];
      tasks_known = λ q below hidden. hidden;
      arrays = record { strings = λ a h. refl; conditions = λ a h. refl };
      arrays_known = λ a below hidden. hidden;
    };
    reachable = record {
      tasks = r.tasks;
      inside = λ q had. elim (Bool-cases (p == q)) [
        | inl f ↦ rw f knows
        | inr f ↦ rw f (r.inside q had)
      ];
      arrays = r.arrays;
    };
  }

  -- A step that changes arrays only, and gives the client arrays that are new.
  heap-Step :
      (h : Heap) (has : ℕ → Bool)
      → m.heap.next ≤ h.next
      → Agree (IsHidden m k) m.heap h
      → ((a : ℕ) → k.arrays a ≡ true → has a ≡ true)
      → ((a : ℕ) → a < m.heap.next → k.arrays a ≡ false → has a ≡ false)
      → ((a : ℕ) → has a ≡ true → a < h.next)
      → Step m k (record m { heap = h }) (record k { arrays = has })
  heap-Step h has grows agree more hides within = record {
    keeps = record {
      arrays_grow = grows;
      tasks_grow = omega arith;
      tasks = λ p below hidden. refl;
      tasks_known = λ p below hidden. hidden;
      arrays = agree;
      arrays_known = hides;
    };
    reachable = record {
      tasks = r.tasks;
      inside = λ p had. Addresses-map (m.tasks p) more (r.inside p had);
      arrays = within;
    };
  }

  pub write-Step : (w : Write) → k.arrays (target w) ≡ true → Step m k (write_array w m) k
  write-Step (to_strings b x) has =
      heap-Step (write_strings b x m.heap) k.arrays (omega arith)
        (record { strings = λ a h. ground arith; conditions = λ a h. refl }) (λ a h. h)
        (λ a below h. h) r.arrays
  write-Step (to_conditions b x) has =
      heap-Step (write_conditions b x m.heap) k.arrays (omega arith)
        (record { strings = λ a h. refl; conditions = λ a h. ground arith }) (λ a h. h)
        (λ a below h. h) r.arrays

  pub make_array-Step :
      (w : Write)
      → target w ≡ m.heap.next
      → Step m k (make_array w m) (record k { arrays = set_at m.heap.next true k.arrays })
  make_array-Step (to_strings b x) e =
      heap-Step (make_array (to_strings b x) m).heap (set_at m.heap.next true k.arrays)
        (omega arith) (record { strings = λ a h. ground arith; conditions = λ a h. refl })
        (λ a h. ground arith) (λ a below h. ground arith) (λ a h. ground (arith, r.arrays a))
  make_array-Step (to_conditions b x) e =
      heap-Step (make_array (to_conditions b x) m).heap (set_at m.heap.next true k.arrays)
        (omega arith) (record { strings = λ a h. refl; conditions = λ a h. ground arith })
        (λ a h. ground arith) (λ a below h. ground arith) (λ a h. ground (arith, r.arrays a))
