-- ===== src/Memory/Serving.antt =====
-- The two halves of the store's methods: a copy is taken in, and a copy is handed out.
use simple_api_server.Prelude.{ℕ, ◌≤◌, ◌<◌, ◌≡◌, refl, ap, subst, sym, inr, none, some, arith}
use simple_api_server.Kube.Outcome.{Outcome, ok, err, panic}
use simple_api_server.Api.{Object}
use simple_api_server.Store.{Store}
use simple_api_server.DeepCopy.{Ref, TaskRef}
use simple_api_server.DeepCopy.Reading.{AtRef, Addresses}
use simple_api_server.Memory.{Memory, World, copy_task, answer}
use simple_api_server.Memory.Copying.{Extends, copy_task-Copied}
use simple_api_server.Memory.Clients.{Known, State, KnowsArrays, learn, hand_out}
use simple_api_server.Memory.Privacy.{
  IsHidden, IsPrivate, object_at, Keeps-Stored, map_values-Keeps, Reachable, Separated,
}
use simple_api_server.DeepCopy.Reading.{Addresses-map}
use simple_api_server.Memory.Values.{map_values}
use simple_api_server.Memory.Learning.{IsGiven, learn-Keeps, learn-Reachable}
use simple_api_server.Memory.ClientSteps.{Step}

-- The store as it is without pointers: each object in place of its pointer.
abbrev pub value_of : World → Store
value_of w = record { items = map_values (object_at w.memory) w.items; rv = w.rv; gr = w.gr }

-- What a caller finds behind the pointer that it is given.
abbrev pub found : Outcome ℕ × World → Outcome Object
found (ok p, w) = ok (object_at w.memory p)
found (err e, w) = err e
found (panic, w) = panic

-- A step that leaves the map alone.
pub Step-Separated :
    (s : State) (m : Memory) (k : Known)
    → Separated s
    → Step s.world.memory s.known m k
    → Separated (record { world = record s.world { memory = m }; known = k })
      × (value_of (record s.world { memory = m }) ≡ value_of s.world)
Step-Separated s m k sep e = (
  record { stored = Keeps-Stored e.keeps s.world.items sep.stored; reachable = e.reachable },
  ap (λ i. record { items = i; rv = s.world.rv; gr = s.world.gr })
      (map_values-Keeps e.keeps s.world.items sep.stored),
)

AtRef-and : (p q : ℕ → Type 0) (r : Ref) → AtRef p r → AtRef q r → AtRef (λ a. p a × q a) r
AtRef-and p q none h g = tt
AtRef-and p q (some a) h g = (h, g)

pub Addresses-and :
    (p q : ℕ → Type 0) (t : TaskRef) → Addresses p t → Addresses q t → Addresses (λ a. p a × q a) t
Addresses-and p q t (c, a, s) (c', a', s') = (
  AtRef-and p q t.spec.command c c',
  AtRef-and p q t.spec.args a a',
  AtRef-and p q t.status.conditions s s',
)

module _ (m : Memory) (k : Known) (r : Reachable m k) where
  pub copied-Step :
      (p : ℕ)
      → Addresses (λ a. a < m.heap.next) (m.tasks p)
      → let (out, m') = copy_task p m in Step m k m' (learn out (m'.tasks out) k)
  unfolding copy_task
  copied-Step p a =
      let (out, m') = copy_task p m in
      let c = copy_task-Copied p m a in
      let given : Addresses (IsGiven m k m') (m'.tasks out) =
        Addresses-map (m'.tasks out) (λ b (h : (m.heap.next ≤ b) × (b < m'.heap.next)). inr h)
          (Addresses-and _ _ (m'.tasks out) c.fresh c.allocated) in
      record {
        keeps = learn-Keeps m m' k c.extends refl given r;
        reachable = learn-Reachable m m' k c.extends refl given r;
      }

  -- What has been allocated since is not the clients'.
  pub Extends-Step : (m' : Memory) → Extends m m' → Step m k m' k
  Extends-Step m' e = record {
    keeps = record {
      arrays_grow = e.arrays_grow;
      tasks_grow = e.tasks_grow;
      tasks = λ p below hidden. e.tasks p below;
      tasks_known = λ p below hidden. hidden;
      arrays = record {
        strings = λ a h. e.arrays.strings a h.0;
        conditions = λ a h. e.arrays.conditions a h.0;
      };
      arrays_known = λ a below hidden. hidden;
    };
    reachable = record {
      tasks = λ p had. omega (arith, r.tasks p had, e.tasks_grow);
      inside =
          λ p had. subst (λ t. KnowsArrays t k) (sym (e.tasks p (r.tasks p had))) (r.inside p had);
      arrays = λ a had. omega (arith, r.arrays a had, e.arrays_grow);
    };
  }

pub answer_lem :
    (w : World) (k : Known) (p : ℕ)
    → Separated (record { world = w; known = k })
    → IsPrivate w.memory k p
    → Separated (hand_out (answer p w) k)
      × (value_of (answer p w).1 ≡ value_of w)
      × (found (answer p w) ≡ ok (object_at w.memory p))
unfolding answer copy_task
answer_lem w k p sep (below, hidden, refs) =
    let a : Addresses (λ b. b < w.memory.heap.next) (w.memory.tasks p) =
      Addresses-map (w.memory.tasks p) (λ b (h : IsHidden w.memory k b). h.0) refs in
    let (t, v) =
      Step-Separated (record { world = w; known = k }) _ _ sep
        (copied-Step w.memory k sep.reachable p a) in
    (t, v, ap (λ x. ok (Object.task x)) (copy_task-Copied p w.memory a).same)
