-- ===== src/Memory/Refinement.antt =====
-- The store with pointers among its clients is the store of values: what they do with their pointers
-- does not reach it.
use simple_api_server.Prelude.{ℕ, ◌≡◌, refl, ap, ap₂, ◌∙◌, sym, List, [], ◌∷◌, ◌++◌, map, GoString}
use mathlib.Core.List.{Permᴰ}
use simple_api_server.Kube.Outcome.{Outcome}
use simple_api_server.Api.{Object}
use simple_api_server.Store
use simple_api_server.Store.{Key, Store, select}
use simple_api_server.Store.Calls
use simple_api_server.Store.Calls.{Call}
use simple_api_server.Memory
use simple_api_server.Memory.{Memory}
use simple_api_server.DeepCopy.Isolation.{to_strings, to_conditions}
use simple_api_server.Memory.Stored.{Stored-Perm}
use simple_api_server.Memory.Clients.{
  on_memory, Known, perform, Event, call, list, make_task, assign, make_strings, make_conditions,
  write, State, act, Permits,
}
use simple_api_server.Memory.Privacy.{object_at, Separated}
use simple_api_server.Memory.Values.{map_values}
use simple_api_server.Memory.ClientSteps.{
  Step, make_task-Step, assign-Step, write-Step, make_array-Step,
}
use simple_api_server.Memory.Serving.{value_of, found, Step-Separated}
use simple_api_server.Memory.Agreement.{value_call, perform-Agrees}
use simple_api_server.Memory.Listing.{copy_matching-Listed}

-- A request of the store of values, and its reply; List walks over the entries in some order.
pub data Request : Type 0 where
  ask : Call → Request
  ask_list : List (Key × Object) → GoString → Request

pub data Reply : Type 0 where
  one : Outcome Object → Reply
  many : List Object → Reply

unfoldable pub serve : Request → Store → Reply × Store
unfolding Calls.perform Store.list
serve (ask c) s = let (r, s') = Calls.perform c s in (one r, s')
serve (ask_list visited namespace) s = (many (Store.list (λ _. visited) namespace s), s)

unfoldable pub serve_all : List Request → Store → List Reply × Store
unfolding serve
serve_all [] s = ([], s)
serve_all (q ∷ qs) s = let (r, s') = serve q s in let (rs, t) = serve_all qs s' in (r ∷ rs, t)

-- What an event asks of the store of values, with the objects behind the pointers that are passed.
abbrev pub requests_of : Event → State → List Request
requests_of (call c) s = ask (value_call s.world.memory c) ∷ []
requests_of (list visited namespace) s =
    ask_list (map_values (object_at s.world.memory) visited) namespace ∷ []
requests_of (make_task _) s = []
requests_of (assign _ _) s = []
requests_of (make_strings _) s = []
requests_of (make_conditions _) s = []
requests_of (write _) s = []

-- What the client finds behind the pointers that are returned, when they are.
abbrev pub replies_of : Event → State → List Reply
replies_of (call c) s = one (found (perform c s.world)) ∷ []
replies_of (list visited namespace) s =
    let (outs, w) = Memory.list visited namespace s.world in
    many (map (object_at w.memory) outs) ∷ []
replies_of (make_task _) s = []
replies_of (assign _ _) s = []
replies_of (make_strings _) s = []
replies_of (make_conditions _) s = []
replies_of (write _) s = []

abbrev pub act_all : List Event → State → State
act_all [] s = s
act_all (e ∷ es) s = act_all es (act e s)

abbrev pub requests : List Event → State → List Request
requests [] s = []
requests (e ∷ es) s = requests_of e s ++ requests es (act e s)

abbrev pub replies : List Event → State → List Reply
replies [] s = []
replies (e ∷ es) s = replies_of e s ++ replies es (act e s)

abbrev pub PermitsAll : State → List Event → Type 0
PermitsAll s [] = Unit
PermitsAll s (e ∷ es) = Permits s e × PermitsAll (act e s) es

serve_all-append :
    (qs ps : List Request) (s : Store)
    → serve_all (qs ++ ps) s
      ≡ (let (rs, t) = serve_all qs s in let (us, u) = serve_all ps t in (rs ++ us, u))
unfolding serve_all
serve_all-append [] ps s = refl
serve_all-append (q ∷ qs) ps s = rw (serve_all-append qs ps (serve q s).1) refl

list-agrees :
    (visited : List (Key × ℕ)) (namespace : GoString) (s : State)
    → Separated s
    → Permᴰ visited s.world.items
    → Separated (act (list visited namespace) s)
      × (serve_all (requests_of (list visited namespace) s) (value_of s.world) ≡ (
        replies_of (list visited namespace) s,
        value_of (act (list visited namespace) s).world,
      ))
unfolding act serve_all
list-agrees visited namespace s sep p =
    let w = s.world in
    let l =
      copy_matching-Listed visited namespace w.memory s.known sep.reachable
        (Stored-Perm w.memory s.known p sep.stored) in
    let (t, v) = Step-Separated s _ _ sep l.step in
    (t, ap₂ (λ os v. (many os ∷ [], v)) (sym l.objects) (sym v))

unchanged :
    (s : State) (m : Memory) (k : Known)
    → Separated s
    → Step s.world.memory s.known m k
    → Separated (on_memory m k s)
      × (◌≡◌ {A = List Reply × Store} ([], value_of s.world) ([], value_of (on_memory m k s).world))
unchanged s m k sep e = let (t, v) = Step-Separated s m k sep e in (t, ap (λ v. ([], v)) (sym v))

act-agrees :
    (e : Event) (s : State)
    → Separated s
    → Permits s e
    → Separated (act e s)
      × (serve_all (requests_of e s) (value_of s.world)
          ≡ (replies_of e s, value_of (act e s).world))
unfolding act serve_all
act-agrees (call c) s sep h =
    let a = perform-Agrees s.world s.known sep c h in
    (a.separated, sym (ap (λ (x : Outcome Object × Store). (one x.0 ∷ [], x.1)) a.answers))
act-agrees (list visited namespace) s sep h = list-agrees visited namespace s sep h
act-agrees (make_task t) s sep h =
    unchanged s _ _ sep (make_task-Step s.world.memory s.known sep.reachable t h)
act-agrees (assign p t) s sep (h, g) =
    unchanged s _ _ sep (assign-Step s.world.memory s.known sep.reachable p t h g)
act-agrees (make_strings x) s sep h = unchanged s _ _ sep (
    make_array-Step s.world.memory s.known sep.reachable (to_strings s.world.memory.heap.next x)
      refl)
act-agrees (make_conditions x) s sep h = unchanged s _ _ sep (
    make_array-Step s.world.memory s.known sep.reachable (to_conditions s.world.memory.heap.next x)
      refl)
act-agrees (write x) s sep h =
    unchanged s _ _ sep (write-Step s.world.memory s.known sep.reachable x h)

pub act-Separated : (e : Event) (s : State) → Separated s → Permits s e → Separated (act e s)
act-Separated e s sep h = (act-agrees e s sep h).0

-- Whatever clients do with pointers of their own between and after their calls of the store, the
-- store behaves as the store of values: from a state in which the clients have no pointer into it,
-- in any sequence of calls, of allocations and of writes through pointers that the clients have, the
-- objects that they find behind the pointers that a call returns, when it returns, are those that
-- the store of values returns for the objects that were behind the pointers passed, when they
-- were passed; and the objects that the store ends with are those of the store of values.
pub act_all-refines :
    (es : List Event) (s : State)
    → Separated s
    → PermitsAll s es
    → serve_all (requests es s) (value_of s.world) ≡ (replies es s, value_of (act_all es s).world)
unfolding serve_all
act_all-refines [] s sep h = refl
act_all-refines (e ∷ es) s sep (h, hs) =
    let (t, v) = act-agrees e s sep h in
    let rest = act_all-refines es (act e s) t hs in
    serve_all-append (requests_of e s) (requests es (act e s)) (value_of s.world)
    ∙ rw (v, rest) refl
