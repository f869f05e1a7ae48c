-- ===== src/DeepCopy/TaskLists.antt =====
-- The copy of a TaskList, pkg/apis/tasks/v1alpha1/zz_generated.deepcopy.go: its items are an array of
-- Task structs, which is copied too.
pub mod Copied
pub mod Isolated
use simple_api_server.Prelude.{ℕ, ◌+◌, Option, none, some, List, [], ◌∷◌, map, GoString}
use simple_api_server.Kube.{Slice, TypeMeta}
use simple_api_server.Api.{Task}
use simple_api_server.DeepCopy.{Heap, Ref, TaskRef, read, set_at, deep_copy}

-- The heap of the Tasks, and on it the arrays of Tasks.
pub record ListHeap : Type 0 where
  pub heap : Heap
  -- The address that the next `make([]Task, n)` returns.
  pub next_array : ℕ
  pub arrays : ℕ → List TaskRef

pub record TaskListRef : Type 0 where
  pub type_meta : TypeMeta
  pub resource_version : GoString
  pub items : Ref

-- What a TaskList is, through its slice.
pub record TaskListValue : Type 0 where
  pub type_meta : TypeMeta
  pub resource_version : GoString
  pub items : Slice Task

unfoldable pub read_items : ListHeap → Ref → Slice Task
read_items m none = Slice.nil
read_items m (some a) = Slice.slice (map (read m.heap) (m.arrays a))

unfoldable pub read_list : ListHeap → TaskListRef → TaskListValue
unfolding read_items
read_list m l = record {
  type_meta = l.type_meta;
  resource_version = l.resource_version;
  items = read_items m l.items;
}

-- `for i := range *in { (*in)[i].DeepCopyInto(&(*out)[i]) }`
unfoldable pub copy_items : List TaskRef → Heap → List TaskRef × Heap
unfolding deep_copy
copy_items [] h = ([], h)
copy_items (t ∷ ts) h =
    let (c, h₁) = deep_copy t h in let (cs, h₂) = copy_items ts h₁ in (c ∷ cs, h₂)

-- (*TaskList).DeepCopyInto; its ListMeta holds a string, so that an assignment copies it.
unfoldable pub deep_copy_list : TaskListRef → ListHeap → TaskListRef × ListHeap
unfolding copy_items
deep_copy_list l m = elim l.items [
  | none ↦ (l, m)
  | some a ↦
      let (cs, h) = copy_items (m.arrays a) m.heap in
      (
        record l { items = some m.next_array },
        record {
          heap = h;
          next_array = m.next_array + 1;
          arrays = set_at m.next_array cs m.arrays;
        },
      )
]

-- (*TaskList).DeepCopy and DeepCopyObject: nil is copied to nil.
unfoldable pub deep_copy_list_object : Option TaskListRef → ListHeap → Option TaskListRef × ListHeap
unfolding deep_copy_list
deep_copy_list_object none m = (none, m)
deep_copy_list_object (some l) m = let (c, m') = deep_copy_list l m in (some c, m')
