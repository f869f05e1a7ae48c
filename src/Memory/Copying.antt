-- ===== src/Memory/Copying.antt =====
-- What a copy of a Task leaves in the memory: the same Task behind a fresh pointer, and all that was
-- allocated as it was.
use simple_api_server.Prelude.{ℕ, ◌+◌, ◌≤◌, ◌<◌, ◌≡◌, refl, ap, ◌∙◌, subst, sym, arith}
use simple_api_server.DeepCopy.{read, set_at, deep_copy}
use simple_api_server.DeepCopy.Reading.{Addresses, Allocated, Agree, read-Agree, Below}
use simple_api_server.DeepCopy.Copying.{deep_copy-Copy, Agree-trans}
use simple_api_server.Memory.{Memory, contents, copy_task}

-- The memory has grown, and what was allocated is as it was.
pub record Extends (m m' : Memory) : Type 0 where
  pub arrays_grow : m.heap.next ≤ m'.heap.next
  pub tasks_grow : m.next_task ≤ m'.next_task
  pub arrays : Agree (Below m.heap.next) m.heap m'.heap
  pub tasks : (p : ℕ) → p < m.next_task → m'.tasks p ≡ m.tasks p

pub Extends-trans : {m m' m'' : Memory} → Extends m m' → Extends m' m'' → Extends m m''
Extends-trans {m} {m'} {m''} e f = record {
  arrays_grow = omega (arith, e.arrays_grow, f.arrays_grow);
  tasks_grow = omega (arith, e.tasks_grow, f.tasks_grow);
  arrays =
      Agree-trans m.heap.next m'.heap.next m.heap m'.heap m''.heap e.arrays_grow e.arrays f.arrays;
  tasks = λ p q. f.tasks p (omega (arith, e.tasks_grow)) ∙ e.tasks p q;
}

-- A pointer to a Task whose arrays are allocated.
abbrev pub IsAllocated : Memory → ℕ → Type 0
IsAllocated m p = (p < m.next_task) × Allocated m.heap (m.tasks p)

pub contents-Extends :
    {m m' : Memory} (p : ℕ) → Extends m m' → IsAllocated m p → contents m' p ≡ contents m p
contents-Extends {m} {m'} p e (below, allocated) =
    ap (read m'.heap) (e.tasks p below)
    ∙ read-Agree (Below m.heap.next) m.heap m'.heap (m.tasks p) e.arrays allocated

-- What a copy of the Task behind `p` leaves.
pub record Copied (m : Memory) (p : ℕ) (out : ℕ) (m' : Memory) : Type 0 where
  pub pointer : out ≡ m.next_task
  pub next_task : m'.next_task ≡ m.next_task + 1
  pub same : contents m' out ≡ contents m p
  pub fresh : Addresses (λ a. m.heap.next ≤ a) (m'.tasks out)
  pub allocated : Allocated m'.heap (m'.tasks out)
  pub extends : Extends m m'

pub copy_task-Copied :
    (p : ℕ) (m : Memory)
    → Allocated m.heap (m.tasks p)
    → Copied m p (copy_task p m).0 (copy_task p m).1
unfolding copy_task
copy_task-Copied p m a =
    let (c, h) = deep_copy (m.tasks p) m.heap in
    let e = deep_copy-Copy m.heap (m.tasks p) a in
    let here : set_at m.next_task c m.tasks m.next_task ≡ c = ground arith in
    record {
      pointer = refl;
      next_task = refl;
      same = ap (read h) here ∙ e.same;
      fresh = subst (Addresses (λ a. m.heap.next ≤ a)) (sym here) e.fresh;
      allocated = subst (Allocated h) (sym here) e.allocated;
      extends = record {
        arrays_grow = e.grows;
        tasks_grow = omega arith;
        arrays = e.keeps;
        tasks = λ q below. ground arith;
      };
    }
