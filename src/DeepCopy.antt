-- ===== src/DeepCopy.antt =====
-- pkg/apis/tasks/v1alpha1/zz_generated.deepcopy.go, on a heap.
--
-- A Task holds three slices; a slice that is not nil is the address of its array here. The arrays
-- hold strings and conditions, which are values. The metadata of a Task is copied by a function of
-- another package and is a value here too.
pub mod Reading
pub mod Copying
pub mod Isolation
pub mod TaskLists
use simple_api_server.Prelude.{
  ℕ, ◌+◌, Option, none, some, List, [], ◌∷◌, GoString, ◌==◌, if◌then◌else◌,
}
use simple_api_server.Kube.{Slice, ObjectMeta, TypeMeta, Condition}
use simple_api_server.Api.{TaskSpec, TaskStatus, Task}

pub record Heap : Type 0 where
  -- The address that the next `make` returns.
  pub next : ℕ
  pub strings : ℕ → List GoString
  pub conditions : ℕ → List Condition

-- A slice: nil, or an address.
abbrev pub Ref : Type 0
Ref = Option ℕ

pub record SpecRef : Type 0 where
  pub image : GoString
  pub command : Ref
  pub args : Ref

pub record StatusRef : Type 0 where
  pub phase : GoString
  pub conditions : Ref
  pub observed_generation : ℕ

pub record TaskRef : Type 0 where
  pub type_meta : TypeMeta
  pub object_meta : ObjectMeta
  pub spec : SpecRef
  pub status : StatusRef

-- What a slice holds.
unfoldable pub read_strings : Heap → Ref → Slice GoString
read_strings h none = Slice.nil
read_strings h (some a) = Slice.slice (h.strings a)

unfoldable pub read_conditions : Heap → Ref → Slice Condition
read_conditions h none = Slice.nil
read_conditions h (some a) = Slice.slice (h.conditions a)

-- What a Task is, through its slices.
unfoldable pub read : Heap → TaskRef → Task
read h t = record {
  type_meta = t.type_meta;
  object_meta = t.object_meta;
  spec = record {
    image = t.spec.image;
    command = read_strings h t.spec.command;
    args = read_strings h t.spec.args;
  };
  status = record {
    phase = t.status.phase;
    conditions = read_conditions h t.status.conditions;
    observed_generation = t.status.observed_generation;
  };
}

abbrev pub set_at {ℓ} : {A : Type ℓ} → ℕ → A → (ℕ → A) → ℕ → A
set_at a x f b = if a == b then x else f b

-- A write into an array, as a whole.
abbrev pub write_strings : ℕ → List GoString → Heap → Heap
write_strings a x h = record h { strings = set_at a x h.strings }

abbrev pub write_conditions : ℕ → List Condition → Heap → Heap
write_conditions a x h = record h { conditions = set_at a x h.conditions }

-- `*out = make([]string, len(*in)); copy(*out, *in)`, if the slice is not nil.
unfoldable pub copy_strings : Ref → Heap → Ref × Heap
copy_strings none h = (none, h)
copy_strings (some a) h =
    (some h.next, record (write_strings h.next (h.strings a) h) { next = h.next + 1 })

-- The same for conditions, in a loop that copies one by one.
unfoldable pub copy_conditions : Ref → Heap → Ref × Heap
copy_conditions none h = (none, h)
copy_conditions (some a) h =
    (some h.next, record (write_conditions h.next (h.conditions a) h) { next = h.next + 1 })

-- (*TaskSpec).DeepCopyInto
unfoldable pub deep_copy_spec : SpecRef → Heap → SpecRef × Heap
unfolding copy_strings
deep_copy_spec t h =
    let (command, h₁) = copy_strings t.command h in
    let (args, h₂) = copy_strings t.args h₁ in (record t { command = command; args = args }, h₂)

-- (*TaskStatus).DeepCopyInto
unfoldable pub deep_copy_status : StatusRef → Heap → StatusRef × Heap
unfolding copy_conditions
deep_copy_status t h =
    let (conditions, h₁) = copy_conditions t.conditions h in
    (record t { conditions = conditions }, h₁)

-- (*Task).DeepCopyInto
unfoldable pub deep_copy : TaskRef → Heap → TaskRef × Heap
unfolding deep_copy_spec deep_copy_status
deep_copy t h =
    let (spec, h₁) = deep_copy_spec t.spec h in
    let (status, h₂) = deep_copy_status t.status h₁ in
    (record t { spec = spec; status = status }, h₂)

-- (*Task).DeepCopy and DeepCopyObject: nil is copied to nil.
unfoldable pub deep_copy_object : Option TaskRef → Heap → Option TaskRef × Heap
unfolding deep_copy
deep_copy_object none h = (none, h)
deep_copy_object (some t) h = let (c, h') = deep_copy t h in (some c, h')

-- (*TaskSpec).DeepCopy
unfoldable pub copy_spec : Option SpecRef → Heap → Option SpecRef × Heap
unfolding deep_copy_spec
copy_spec none h = (none, h)
copy_spec (some t) h = let (c, h') = deep_copy_spec t h in (some c, h')

-- (*TaskStatus).DeepCopy
unfoldable pub copy_status : Option StatusRef → Heap → Option StatusRef × Heap
unfolding deep_copy_status
copy_status none h = (none, h)
copy_status (some t) h = let (c, h') = deep_copy_status t h in (some c, h')
