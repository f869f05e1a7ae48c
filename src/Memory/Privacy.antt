-- ===== src/Memory/Privacy.antt =====
-- What the clients cannot reach, and that it stays as it is.
use simple_api_server.Prelude.{
  ℕ, ◌≤◌, ◌<◌, ◌≡◌, refl, ap, ap₂, ◌∙◌, subst, sym, true, false, List, [], ◌∷◌, All, arith,
}
use simple_api_server.Api.{Object, task}
use simple_api_server.Store.{Key}
use simple_api_server.DeepCopy.{read}
use simple_api_server.DeepCopy.Reading.{Addresses-map, Addresses, Agree, read-Agree}
use simple_api_server.Memory.{Memory, contents}
use simple_api_server.Memory.Clients.{Known, State, KnowsArrays}
use simple_api_server.Memory.Values.{map_values}

-- An array that is there, and that no client has.
abbrev pub IsHidden : Memory → Known → ℕ → Type 0
IsHidden m k a = (a < m.heap.next) × (k.arrays a ≡ false)

-- A Task that no client can reach.
abbrev pub IsPrivate : Memory → Known → ℕ → Type 0
IsPrivate m k p = (p < m.next_task) × (k.tasks p ≡ false) × Addresses (IsHidden m k) (m.tasks p)

-- A step changes nothing that the clients cannot reach, and gives them nothing of it.
pub record Keeps (m : Memory) (k : Known) (m' : Memory) (k' : Known) : Type 0 where
  pub arrays_grow : m.heap.next ≤ m'.heap.next
  pub tasks_grow : m.next_task ≤ m'.next_task
  pub tasks : (p : ℕ) → p < m.next_task → k.tasks p ≡ false → m'.tasks p ≡ m.tasks p
  pub tasks_known : (p : ℕ) → p < m.next_task → k.tasks p ≡ false → k'.tasks p ≡ false
  pub arrays : Agree (IsHidden m k) m.heap m'.heap
  pub arrays_known : (a : ℕ) → a < m.heap.next → k.arrays a ≡ false → k'.arrays a ≡ false

module _ {m m' : Memory} {k k' : Known} (e : Keeps m k m' k') where
  pub Keeps-IsPrivate : (p : ℕ) → IsPrivate m k p → IsPrivate m' k' p
  Keeps-IsPrivate p (below, hidden, refs) = (
    omega (arith, e.tasks_grow),
    e.tasks_known p below hidden,
    subst (Addresses (IsHidden m' k')) (sym (e.tasks p below hidden)) (
        Addresses-map (m.tasks p)
          (λ a (h : IsHidden m k a). (omega (arith, e.arrays_grow, h.0), e.arrays_known a h.0 h.1))
          refs),
  )

  pub contents-Keeps : (p : ℕ) → IsPrivate m k p → contents m' p ≡ contents m p
  contents-Keeps p (below, hidden, refs) =
      ap (read m'.heap) (e.tasks p below hidden)
      ∙ read-Agree (IsHidden m k) m.heap m'.heap (m.tasks p) e.arrays refs

-- The object that the store holds at a pointer.
abbrev pub object_at : Memory → ℕ → Object
object_at m p = task (contents m p)

abbrev pub Stored : Memory → Known → List (Key × ℕ) → Type 0
Stored m k = All (λ (e : Key × ℕ). IsPrivate m k e.1)

module _ {m m' : Memory} {k k' : Known} (e : Keeps m k m' k') where
  pub Keeps-Stored : (items : List (Key × ℕ)) → Stored m k items → Stored m' k' items
  Keeps-Stored [] h = tt
  Keeps-Stored ((_, p) ∷ items) (h, hs) = (Keeps-IsPrivate e p h, Keeps-Stored items hs)

  pub map_values-Keeps :
      (items : List (Key × ℕ))
      → Stored m k items
      → map_values (object_at m') items ≡ map_values (object_at m) items
  map_values-Keeps [] h = refl
  map_values-Keeps ((j, p) ∷ items) (h, hs) =
      ap₂ (λ o r. (j, task o) ∷ r) (contents-Keeps e p h) (map_values-Keeps items hs)

-- What the clients have is there, and what they find in it they have.
pub record Reachable (m : Memory) (k : Known) : Type 0 where
  pub tasks : (p : ℕ) → k.tasks p ≡ true → p < m.next_task
  pub inside : (p : ℕ) → k.tasks p ≡ true → KnowsArrays (m.tasks p) k
  pub arrays : (a : ℕ) → k.arrays a ≡ true → a < m.heap.next

-- The store and its clients share nothing.
pub record Separated (s : State) : Type 0 where
  pub stored : Stored s.world.memory s.known s.world.items
  pub reachable : Reachable s.world.memory s.known

module _ {m m' m'' : Memory} {k k' k'' : Known} (e : Keeps m k m' k')
    (f : Keeps m' k' m'' k'') where
  pub Keeps-trans : Keeps m k m'' k''
  Keeps-trans =
      let there : (a : ℕ) → IsHidden m k a → IsHidden m' k' a =
        λ a h. (omega (arith, e.arrays_grow), e.arrays_known a h.0 h.1) in
      record {
        arrays_grow = omega (arith, e.arrays_grow, f.arrays_grow);
        tasks_grow = omega (arith, e.tasks_grow, f.tasks_grow);
        tasks = λ p below hidden.
            f.tasks p (omega (arith, e.tasks_grow)) (e.tasks_known p below hidden)
            ∙ e.tasks p below hidden;
        tasks_known = λ p below hidden.
            f.tasks_known p (omega (arith, e.tasks_grow)) (e.tasks_known p below hidden);
        arrays = record {
          strings = λ a h. f.arrays.strings a (there a h) ∙ e.arrays.strings a h;
          conditions = λ a h. f.arrays.conditions a (there a h) ∙ e.arrays.conditions a h;
        };
        arrays_known = λ a below hidden.
            f.arrays_known a (there a (below, hidden)).0 (there a (below, hidden)).1;
      }
