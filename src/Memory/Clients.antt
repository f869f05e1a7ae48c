-- ===== src/Memory/Clients.antt =====
-- The code around the store. A client has pointers: what it has made, what a call has returned to it,
-- and what it finds in there. It writes where it likes through them, between its calls.
use simple_api_server.Prelude.{
  ℕ, ◌+◌, ◌≡◌, Bool, true, false, ◌||◌, ◌==◌, none, some, List, [], ◌∷◌, GoString,
}
use mathlib.Core.List.{Permᴰ}
use simple_api_server.Kube.{Condition}
use simple_api_server.Kube.Outcome.{Outcome, ok, err, panic}
use simple_api_server.Store.{Key}
use simple_api_server.DeepCopy.{Ref, TaskRef, set_at, write_strings, write_conditions}
use simple_api_server.DeepCopy.Reading.{Addresses}
use simple_api_server.DeepCopy.Isolation.{Write, to_strings, to_conditions, target}
use simple_api_server.Memory
use simple_api_server.Memory.{Memory, World, allocate}

-- The calls of the store with the pointers that are passed.
pub data PointerCall : Type 0 where
  get : Key → PointerCall
  create : Key → ℕ → PointerCall
  update : Key → ℕ → PointerCall
  delete : Key → PointerCall

unfoldable pub perform : PointerCall → World → Outcome ℕ × World
unfolding Memory.get Memory.create Memory.update Memory.delete
perform (get key) w = Memory.get key w
perform (create key p) w = Memory.create key p w
perform (update key p) w = Memory.update key p w
perform (delete key) w = Memory.delete key w

-- The pointers and arrays that the clients have.
pub record Known : Type 0 where
  pub tasks : ℕ → Bool
  pub arrays : ℕ → Bool

abbrev pub is_at : Ref → ℕ → Bool
is_at none a = false
is_at (some b) a = b == a

abbrev pub mentions : TaskRef → ℕ → Bool
mentions t a = is_at t.spec.command a || is_at t.spec.args a || is_at t.status.conditions a

-- A pointer, and the arrays of the Task behind it.
abbrev pub learn : ℕ → TaskRef → Known → Known
learn p t k = record { tasks = set_at p true k.tasks; arrays = λ a. mentions t a || k.arrays a }

-- A step of a client.
pub data Event : Type 0 where
  call : PointerCall → Event
  -- A List of a namespace, with the entries of the map in the order in which it is walked.
  list : List (Key × ℕ) → GoString → Event
  -- `p := &Task{...}`
  make_task : TaskRef → Event
  -- `*p = t`, and with it any assignment to a field.
  assign : ℕ → TaskRef → Event
  make_strings : List GoString → Event
  make_conditions : List Condition → Event
  write : Write → Event

pub record State : Type 0 where
  pub world : World
  pub known : Known

abbrev pub on_memory : Memory → Known → State → State
on_memory m k s = record { world = record s.world { memory = m }; known = k }

abbrev pub write_array : Write → Memory → Memory
write_array (to_strings a x) m = record m { heap = write_strings a x m.heap }
write_array (to_conditions a x) m = record m { heap = write_conditions a x m.heap }

-- `make`, and the write of what the array holds.
abbrev pub make_array : Write → Memory → Memory
make_array x m =
    let m' = write_array x m in record m' { heap = record m'.heap { next = m.heap.next + 1 } }

-- Several pointers, to what they lead to in the memory.
abbrev pub learn_all : List ℕ → Memory → Known → Known
learn_all [] m k = k
learn_all (p ∷ ps) m k = learn_all ps m (learn p (m.tasks p) k)

-- A call that returns a pointer hands it out.
abbrev pub learn_outcome : Outcome ℕ → Memory → Known → Known
learn_outcome (ok p) m k = learn p (m.tasks p) k
learn_outcome (err _) m k = k
learn_outcome panic m k = k

abbrev pub hand_out : Outcome ℕ × World → Known → State
hand_out a k = record { world = a.1; known = learn_outcome a.0 a.1.memory k }

unfoldable pub act : Event → State → State
unfolding perform Memory.list
act (call c) s = hand_out (perform c s.world) s.known
act (list visited namespace) s =
    let (outs, w) = Memory.list visited namespace s.world in
    record { world = w; known = learn_all outs w.memory s.known }
act (make_task t) s = let (p, m) = allocate t s.world.memory in on_memory m (learn p t s.known) s
act (assign p t) s =
    let m = s.world.memory in on_memory (record m { tasks = set_at p t m.tasks }) s.known s
act (make_strings x) s =
    let m = s.world.memory in
    on_memory (make_array (to_strings m.heap.next x) m)
      (record s.known { arrays = set_at m.heap.next true s.known.arrays }) s
act (make_conditions x) s =
    let m = s.world.memory in
    on_memory (make_array (to_conditions m.heap.next x) m)
      (record s.known { arrays = set_at m.heap.next true s.known.arrays }) s
act (write x) s = on_memory (write_array x s.world.memory) s.known s

abbrev pub KnowsArrays : TaskRef → Known → Type 0
KnowsArrays t k = Addresses (λ a. k.arrays a ≡ true) t

-- A client has no pointer but those that it was given, and List walks over the map.
abbrev pub Permits : State → Event → Type 0
Permits s (call (get _)) = Unit
Permits s (call (create _ p)) = s.known.tasks p ≡ true
Permits s (call (update _ p)) = s.known.tasks p ≡ true
Permits s (call (delete _)) = Unit
Permits s (list visited _) = Permᴰ visited s.world.items
Permits s (make_task t) = KnowsArrays t s.known
Permits s (assign p t) = (s.known.tasks p ≡ true) × KnowsArrays t s.known
Permits s (make_strings _) = Unit
Permits s (make_conditions _) = Unit
Permits s (write x) = s.known.arrays (target x) ≡ true
