-- ===== src/Memory/Learning.antt =====
-- A client is given a pointer to a Task that has just been made.
use simple_api_server.Prelude.{
  ℕ, ◌+◌, ◌≤◌, ◌<◌, ◌≡◌, ◌⊎◌, inl, inr, subst, sym, true, ◌==◌, none, some, arith, Bool-cases,
}
use simple_api_server.DeepCopy.{Ref, TaskRef}
use simple_api_server.DeepCopy.Reading.{AtRef, Addresses}
use simple_api_server.Memory.{Memory}
use simple_api_server.Memory.Copying.{Extends}
use simple_api_server.Memory.Clients.{Known, is_at, mentions, learn, KnowsArrays}
use simple_api_server.Memory.Privacy.{Keeps, Reachable}
use simple_api_server.DeepCopy.Reading.{AtRef-map, Addresses-map}

is_at-AtRef : (p : ℕ → Type 0) (r : Ref) (a : ℕ) → AtRef p r → is_at r a ≡ true → p a
is_at-AtRef p none a h e = cc
is_at-AtRef p (some b) a h e = subst p (ground arith) h

pub mentions-Addresses :
    (p : ℕ → Type 0) (t : TaskRef) (a : ℕ) → Addresses p t → mentions t a ≡ true → p a
mentions-Addresses p t a (c, d, s) e = elim (Bool-cases (is_at t.spec.command a)) [
  | inl f ↦ is_at-AtRef p t.spec.command a c f
  | inr f ↦ elim (Bool-cases (is_at t.spec.args a)) [
    | inl g ↦ is_at-AtRef p t.spec.args a d g
    | inr g ↦ is_at-AtRef p t.status.conditions a s (rw (f, g) at e)
  ]
]

AtRef-is_at : (r : Ref) → AtRef (λ a. is_at r a ≡ true) r
AtRef-is_at none = tt
AtRef-is_at (some b) = ground arith

Addresses-mentions : (t : TaskRef) → Addresses (λ a. mentions t a ≡ true) t
Addresses-mentions t = (
  AtRef-map t.spec.command (λ a (h : is_at t.spec.command a ≡ true). ground arith)
      (AtRef-is_at t.spec.command),
  AtRef-map t.spec.args (λ a (h : is_at t.spec.args a ≡ true). ground arith)
      (AtRef-is_at t.spec.args),
  AtRef-map t.status.conditions (λ a (h : is_at t.status.conditions a ≡ true). ground arith)
      (AtRef-is_at t.status.conditions),
)

-- An array that the client has, or one that has just been made.
abbrev pub IsGiven : Memory → Known → Memory → ℕ → Type 0
IsGiven m k m' a = (k.arrays a ≡ true) ⊎ ((m.heap.next ≤ a) × (a < m'.heap.next))

module _ (m m' : Memory) (k : Known) (e : Extends m m') (made : m'.next_task ≡ m.next_task + 1)
    (given : Addresses (IsGiven m k m') (m'.tasks m.next_task)) (r : Reachable m k) where
  pub learn-Keeps : Keeps m k m' (learn m.next_task (m'.tasks m.next_task) k)
  learn-Keeps = record {
    arrays_grow = e.arrays_grow;
    tasks_grow = e.tasks_grow;
    tasks = λ p below hidden. e.tasks p below;
    tasks_known = λ p below hidden. ground arith;
    arrays = record {
      strings = λ a h. e.arrays.strings a h.0;
      conditions = λ a h. e.arrays.conditions a h.0;
    };
    arrays_known = λ a below hidden. elim (Bool-cases (mentions (m'.tasks m.next_task) a)) [
      | inl f ↦ elim (mentions-Addresses (IsGiven m k m') (m'.tasks m.next_task) a given f) [
        | inl g ↦ absurd (cc)
        | inr g ↦ absurd (omega arith)
      ]
      | inr f ↦ rw f hidden
    ];
  }

  pub learn-Reachable : Reachable m' (learn m.next_task (m'.tasks m.next_task) k)
  learn-Reachable = record {
    tasks = λ p q. ground (arith, r.tasks p, made);
    inside = λ p q. elim (Bool-cases (m.next_task == p)) [
      | inl f ↦
          subst (λ n. KnowsArrays (m'.tasks n) (learn m.next_task (m'.tasks m.next_task) k))
            (ground arith)
            (Addresses-map (m'.tasks m.next_task)
              (λ a (h : mentions (m'.tasks m.next_task) a ≡ true). rw h)
              (Addresses-mentions (m'.tasks m.next_task)))
      | inr f ↦
          let had : k.tasks p ≡ true = rw f at q in
          subst (λ t. KnowsArrays t (learn m.next_task (m'.tasks m.next_task) k))
            (sym (e.tasks p (r.tasks p had)))
            (Addresses-map (m.tasks p) (λ a (h : k.arrays a ≡ true). ground arith) (r.inside p had))
    ];
    arrays = λ a q. elim (Bool-cases (mentions (m'.tasks m.next_task) a)) [
      | inl f ↦ elim (mentions-Addresses (IsGiven m k m') (m'.tasks m.next_task) a given f) [
        | inl g ↦ omega (arith, r.arrays a g, e.arrays_grow)
        | inr g ↦ omega arith
      ]
      | inr f ↦ omega (arith, r.arrays a (rw f at q), e.arrays_grow)
    ];
  }
