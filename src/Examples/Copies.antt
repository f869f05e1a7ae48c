-- ===== src/Examples/Copies.antt =====
-- The theorems about deep copies at one Task on a small heap.
use mathlib.Core.List.{Memᴰ}
use simple_api_server.Prelude.{ℕ, ◌≤◌, ◌<◌, ◌≡◌, subst, sym, ap, some, [], ◌∷◌, List, text, arith}
use simple_api_server.DeepCopy.{Heap, TaskRef, read, deep_copy}
use simple_api_server.DeepCopy.Isolation.{
  Write, to_strings, target, write_all, copy_isolated, original_isolated,
}
use simple_api_server.Examples.Data.{old}
use simple_api_server.DeepCopy.TaskLists.{ListHeap, TaskListRef, read_list, deep_copy_list}
use simple_api_server.DeepCopy.TaskLists.Isolated.{ArrayWrite, write_lists, list_isolated}

abbrev heap : Heap
heap = record { next = 2; strings = λ _. text "-v" ∷ []; conditions = λ _. [] }

abbrev pub on_heap : TaskRef
on_heap = record {
  type_meta = old.type_meta;
  object_meta = old.object_meta;
  spec = record { image = text "busybox"; command = some 0; args = some 0 };
  status = record { phase = text "Running"; conditions = some 1; observed_generation = 1 };
}

abbrev write_to : ℕ → List Write
write_to a = to_strings a (text "changed" ∷ []) ∷ []

only_target : (a : ℕ) (w : Write) → Memᴰ w (write_to a) → target w ≡ a
only_target a w (Memᴰ.head p) = ap target p
only_target a w (Memᴰ.tail m) = elim m [ ]

copy_isolated_example :
    read (write_all (write_to 0) (deep_copy on_heap heap).1) (deep_copy on_heap heap).0
    ≡ read heap on_heap
copy_isolated_example =
    copy_isolated heap on_heap (omega arith, omega arith, omega arith) (write_to 0)
      (λ w m. subst (λ b. b < 2) (sym (only_target 0 w m)) (omega arith))

original_isolated_example :
    read (write_all (write_to 2) (deep_copy on_heap heap).1) on_heap ≡ read heap on_heap
original_isolated_example =
    original_isolated heap on_heap (omega arith, omega arith, omega arith) (write_to 2)
      (λ w m. subst (λ b. 2 ≤ b) (sym (only_target 2 w m)) (omega arith))

abbrev lists : ListHeap
lists = record { heap = heap; next_array = 1; arrays = λ _. on_heap ∷ [] }

abbrev one_task : TaskListRef
one_task = record { type_meta = old.type_meta; resource_version = text "7"; items = some 0 }

abbrev emptied : ℕ → List ArrayWrite
emptied a = (a, []) ∷ []

only_emptied : (a : ℕ) (w : ArrayWrite) → Memᴰ w (emptied a) → w.0 ≡ a
only_emptied a w (Memᴰ.head p) = ap (λ (v : ArrayWrite). v.0) p
only_emptied a w (Memᴰ.tail m) = elim m [ ]

list_isolated_example :
    let (c, m') = deep_copy_list one_task lists in
    (read_list (write_lists (write_to 0) (emptied 0) m') c ≡ read_list lists one_task)
    × (read_list (write_lists (write_to 2) (emptied 1) m') one_task ≡ read_list lists one_task)
list_isolated_example =
    list_isolated lists one_task (omega arith, ((omega arith, omega arith, omega arith), tt))
      (write_to 0) (write_to 2) (emptied 0) (emptied 1)
      (λ w m. subst (λ b. b < 2) (sym (only_target 0 w m)) (omega arith))
      (λ w m. subst (λ b. b < 1) (sym (only_emptied 0 w m)) (omega arith))
      (λ w m. subst (λ b. 2 ≤ b) (sym (only_target 2 w m)) (omega arith))
      (λ w m. subst (λ b. 1 ≤ b) (sym (only_emptied 1 w m)) (omega arith))
