-- ===== src/DeepCopy/TaskLists/Isolated.antt =====
-- A copy of a TaskList and its original share no array.
use mathlib.Core.List.{Memᴰ}
use simple_api_server.Prelude.{
  ℕ, ◌+◌, ◌≤◌, ◌<◌, ◌≡◌, refl, sym, subst, ap, ◌∙◌, inl, inr, Option-cases, none, some, List, [],
  ◌∷◌, map, All, arith,
}
use simple_api_server.Kube.{Slice}
use simple_api_server.Api.{Task}
use simple_api_server.DeepCopy.{Ref, TaskRef, read, set_at}
use simple_api_server.DeepCopy.Reading.{Addresses, Allocated, Below}
use simple_api_server.DeepCopy.Isolation.{Write, target, write_all, write_all-Agree, elsewhere}
use simple_api_server.DeepCopy.TaskLists.{
  ListHeap, TaskListRef, TaskListValue, read_items, read_list, copy_items, deep_copy_list,
}
use simple_api_server.DeepCopy.TaskLists.Copied.{Above, read_each-Agree, copy_items-ItemsCopied}

-- A write of an array of Tasks, as a whole.
abbrev pub ArrayWrite : Type 0
ArrayWrite = ℕ × List TaskRef

unfoldable pub write_arrays : List ArrayWrite → (ℕ → List TaskRef) → ℕ → List TaskRef
write_arrays [] f = f
write_arrays ((a, ts) ∷ ws) f = write_arrays ws (set_at a ts f)

-- What anyone may write afterwards.
unfoldable pub write_lists : List Write → List ArrayWrite → ListHeap → ListHeap
unfolding write_all write_arrays
write_lists ws as' m = record m { heap = write_all ws m.heap; arrays = write_arrays as' m.arrays }

write_arrays_elsewhere :
    (b : ℕ) (ws : List ArrayWrite) (f : ℕ → List TaskRef)
    → ((w : ArrayWrite) → Memᴰ w ws → w.0 ≡ b → ⊥)
    → write_arrays ws f b ≡ f b
unfolding write_arrays
write_arrays_elsewhere b [] f off = refl
write_arrays_elsewhere b ((a, ts) ∷ ws) f off =
    write_arrays_elsewhere b ws (set_at a ts f) (λ w m. off w (Memᴰ.tail m))
    ∙ elsewhere a b ts f (off (a, ts) (Memᴰ.head refl))

-- The array of the items is there, and the arrays of each item.
abbrev pub ItemsAllocated : ListHeap → Ref → Type 0
ItemsAllocated m none = Unit
ItemsAllocated m (some a) = (a < m.next_array) × All (Allocated m.heap) (m.arrays a)

-- The items that a slice leads to, after writes elsewhere.
items_kept :
    (p : ℕ → Type 0) (a : ℕ) (m : ListHeap) (ws : List Write) (as' : List ArrayWrite)
    → All (Addresses p) (m.arrays a)
    → ((w : Write) → Memᴰ w ws → p (target w) → ⊥)
    → ((w : ArrayWrite) → Memᴰ w as' → w.0 ≡ a → ⊥)
    → read_items (write_lists ws as' m) (some a) ≡ read_items m (some a)
unfolding read_items write_lists
items_kept p a m ws as' q off off' =
    ap (λ ts. Slice.slice (map (read (write_all ws m.heap)) ts))
      (write_arrays_elsewhere a as' m.arrays off')
    ∙ ap Slice.slice (
        read_each-Agree p m.heap (write_all ws m.heap) (m.arrays a)
          (write_all-Agree p ws m.heap off) q)

-- The copy of the array of the items.
abbrev copied : ListHeap → ℕ → ListHeap
copied m a =
    let (cs, h) = copy_items (m.arrays a) m.heap in
    record { heap = h; next_array = m.next_array + 1; arrays = set_at m.next_array cs m.arrays }

module _ (m : ListHeap) (a : ℕ) (allocated : All (Allocated m.heap) (m.arrays a)) (ws : List Write)
    (as' : List ArrayWrite) where
  copy_kept :
      ((w : Write) → Memᴰ w ws → target w < m.heap.next)
      → ((w : ArrayWrite) → Memᴰ w as' → w.0 < m.next_array)
      → read_items (write_lists ws as' (copied m a)) (some m.next_array) ≡ read_items m (some a)
  unfolding read_items
  copy_kept old old' =
      let i = copy_items-ItemsCopied (m.arrays a) m.heap allocated in
      let (cs, h) = copy_items (m.arrays a) m.heap in
      let here : set_at m.next_array cs m.arrays m.next_array ≡ cs = ground arith in
      items_kept (λ x. m.heap.next ≤ x) m.next_array (copied m a) ws as'
        (subst (All (Above m.heap.next)) (sym here) i.fresh) (λ w k q. omega (arith, old w k, q))
        (λ w k q. omega (arith, old' w k, q))
      ∙ ap (λ ts. Slice.slice (map (read h) ts)) here
      ∙ ap Slice.slice i.same

  original_kept :
      a < m.next_array
      → ((w : Write) → Memᴰ w ws → m.heap.next ≤ target w)
      → ((w : ArrayWrite) → Memᴰ w as' → m.next_array ≤ w.0)
      → read_items (write_lists ws as' (copied m a)) (some a) ≡ read_items m (some a)
  unfolding read_items
  original_kept below new new' =
      let i = copy_items-ItemsCopied (m.arrays a) m.heap allocated in
      let (cs, h) = copy_items (m.arrays a) m.heap in
      let there : set_at m.next_array cs m.arrays a ≡ m.arrays a =
        elsewhere m.next_array a cs m.arrays (λ e. omega (arith, e, below)) in
      items_kept (Below m.heap.next) a (copied m a) ws as'
        (subst (All (Allocated m.heap)) (sym there) allocated) (λ w k q. omega (arith, new w k, q))
        (λ w k q. omega (arith, new' w k, q, below))
      ∙ ap (λ ts. Slice.slice (map (read h) ts)) there
      ∙ ap Slice.slice (read_each-Agree (Below m.heap.next) m.heap h (m.arrays a) i.keeps allocated)

abbrev with_items : TaskListRef → Slice Task → TaskListValue
with_items l items = record {
  type_meta = l.type_meta;
  resource_version = l.resource_version;
  items = items;
}

nil_kept :
    (m : ListHeap) (ws : List Write) (as' : List ArrayWrite) (r : Ref)
    → r ≡ none
    → read_items (write_lists ws as' m) r ≡ read_items m r
unfolding read_items
nil_kept m ws as' r e = rw (e)

deep_copy_list-nil : (l : TaskListRef) (m : ListHeap) → l.items ≡ none → deep_copy_list l m ≡ (l, m)
unfolding deep_copy_list
deep_copy_list-nil l m e = rw (e)

deep_copy_list-slice :
    (l : TaskListRef) (m : ListHeap) (a : ℕ)
    → l.items ≡ some a
    → deep_copy_list l m ≡ (record l { items = some m.next_array }, copied m a)
unfolding deep_copy_list
deep_copy_list-slice l m a e = rw (e)

module _ (m : ListHeap) (l : TaskListRef) (allocated : ItemsAllocated m l.items)
    (old new : List Write) (old_arrays new_arrays : List ArrayWrite) where
  -- A deep copy of a TaskList whose arrays are allocated is the same TaskList, and stays it whatever is
  -- then written into arrays, of strings, of conditions and of Tasks, that were there before the
  -- copy; and the original stays as it was whatever is then written into arrays that are newer.
  pub list_isolated :
      ((w : Write) → Memᴰ w old → target w < m.heap.next)
      → ((w : ArrayWrite) → Memᴰ w old_arrays → w.0 < m.next_array)
      → ((w : Write) → Memᴰ w new → m.heap.next ≤ target w)
      → ((w : ArrayWrite) → Memᴰ w new_arrays → m.next_array ≤ w.0)
      → let (c, m') = deep_copy_list l m in
        (read_list (write_lists old old_arrays m') c ≡ read_list m l)
        × (read_list (write_lists new new_arrays m') l ≡ read_list m l)
  unfolding read_list
  list_isolated o oa n na = elim (Option-cases l.items) [
    | inl e ↦
        let d = deep_copy_list-nil l m e in
        subst
          (λ (p : TaskListRef × ListHeap).
            (read_list (write_lists old old_arrays p.1) p.0 ≡ read_list m l)
            × (read_list (write_lists new new_arrays p.1) l ≡ read_list m l))
          (sym d)
          (
            ap (with_items l) (nil_kept m old old_arrays l.items e),
            ap (with_items l) (nil_kept m new new_arrays l.items e),
          )
    | inr (a, e) ↦
        let (below, q) = subst (ItemsAllocated m) e allocated in
        subst
          (λ (p : TaskListRef × ListHeap).
            (read_list (write_lists old old_arrays p.1) p.0 ≡ read_list m l)
            × (read_list (write_lists new new_arrays p.1) l ≡ read_list m l))
          (sym (deep_copy_list-slice l m a e))
          (
            ap (with_items l) (copy_kept m a q old old_arrays o oa ∙ sym (ap (read_items m) e)),
            ap (with_items l) (
                ap (read_items (write_lists new new_arrays (copied m a))) e
                ∙ original_kept m a q new new_arrays below n na
                ∙ sym (ap (read_items m) e)),
          )
  ]
