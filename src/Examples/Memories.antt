-- ===== src/Examples/Memories.antt =====
-- The theorems about the store with pointers, for a client that reuses its arrays.
use mathlib.Core.List.Permᴰ
use simple_api_server.Prelude.{
  ℕ, ◌<◌, ◌≡◌, refl, true, false, none, some, List, [], ◌∷◌, text, str_eq,
}
use simple_api_server.Api.{resource}
use simple_api_server.Store.{Key, key_eq, lookup, put}
use simple_api_server.DeepCopy.{TaskRef, deep_copy}
use simple_api_server.DeepCopy.Isolation.{to_strings}
use simple_api_server.Memory.Clients.{
  get, create, Event, call, list, make_task, make_strings, write, State, act,
}
use simple_api_server.Memory.Serving.{value_of}
use simple_api_server.Memory.Refinement.{
  serve_all, requests, replies, act_all, PermitsAll, act_all-refines,
}
use simple_api_server.Memory.Unshared.{started, started-Separated, nothing_shared}
use simple_api_server.Memory.{Memory}
use simple_api_server.DeepCopy.Reading.{Addresses}
use mathlib.Core.List.{Memᴰ}
use simple_api_server.Examples.Copies.{on_heap}

abbrev key : Key
key = record { namespace = text "default"; name = text "job" }

abbrev with_command : TaskRef
with_command = record on_heap {
  spec = record { image = text "busybox"; command = some 0; args = none };
  status = record { phase = []; conditions = none; observed_generation = 0 };
}

abbrev memory : Memory
memory = record {
  heap = record { next = 0; strings = λ _. []; conditions = λ _. [] };
  next_task = 0;
  tasks = λ _. with_command;
}

-- A server that has just started.
abbrev start : State
start = started memory (resource (text "tasks"))

-- A Task is made and created, its command is overwritten, and the Task is read and listed.
abbrev events : List Event
events =
    make_strings (text "run" ∷ [])
    ∷ make_task with_command
    ∷ call (create key 0)
    ∷ write (to_strings 0 (text "changed" ∷ []))
    ∷ call (get key)
    ∷ write (to_strings 3 (text "changed" ∷ []))
    ∷ list ((key, 1) ∷ []) []
    ∷ []

events-PermitsAll : PermitsAll start events
unfolding act lookup put key_eq str_eq deep_copy
events-PermitsAll = (tt, ((refl, tt, tt), (refl, (refl, (tt, (refl, (Permᴰ.refl _, tt)))))))

act_all-refines_example :
    serve_all (requests events start) (value_of start.world)
    ≡ (replies events start, value_of (act_all events start).world)
act_all-refines_example =
    act_all-refines events start (started-Separated memory (resource (text "tasks")))
      events-PermitsAll

nothing_shared_example :
    let s = act_all events start in
    ((k : Key) (p : ℕ)
      → Memᴰ (k, p) s.world.items
      → (s.known.tasks p ≡ false)
        × Addresses (λ a. s.known.arrays a ≡ false) (s.world.memory.tasks p))
    × ((q : ℕ)
        → s.known.tasks q ≡ true
        → (q < s.world.memory.next_task)
          × Addresses (λ a. s.known.arrays a ≡ true) (s.world.memory.tasks q))
nothing_shared_example = nothing_shared memory (resource (text "tasks")) events events-PermitsAll
