-- ===== src/Registry/ListTasks.antt =====
-- What List answers: (*REST).List of pkg/registry/tasks/task/storage.go.
pub mod Answer
use mathlib.Core.List.{Memᴰ}
use simple_api_server.Prelude.{
  ℕ, ◌≤◌, ◌≡◌, refl, sym, subst, ap, ◌∙◌, ◌↔◌, ◌⊎◌, inl, inr, Bool-cases, true, false, List, [],
  ◌∷◌, ◌++◌, arith, ltb,
}
use simple_api_server.Kube.Outcome.{ok}
use simple_api_server.Api.{Task, Object, task, task_list, other_object}
use simple_api_server.Registry.Checks.{parse_rv_or_zero, Selector, list_loop}

-- What the loop makes of a list of Tasks.
pub record Listed (selector : Selector) (raw : List Object) (items₀ items : List Task) (n₀ n : ℕ)
    : Type 0 where
  pub exact :
      (t : Task)
      → Memᴰ t items
        ↔ (Memᴰ t items₀ ⊎ (Memᴰ (task t) raw × (selector t.object_meta.labels ≡ true)))
  pub starts : n₀ ≤ n
  pub bounds :
      (t : Task)
      → Memᴰ (task t) raw
      → selector t.object_meta.labels ≡ true
      → parse_rv_or_zero t.object_meta.resource_version ≤ n
  pub reached :
      (n ≡ n₀)
      ⊎ ((t : Task) × Memᴰ (task t) raw
          × (selector t.object_meta.labels ≡ true)
          × (n ≡ parse_rv_or_zero t.object_meta.resource_version))

mem-snoc : {A : Type 0} (a b : A) (l : List A) → Memᴰ a (l ++ b ∷ []) ↔ (Memᴰ a l ⊎ (a ≡ b))
mem-snoc a b [] = (
  λ h. elim h [ Memᴰ.head p ↦ inr p | Memᴰ.tail q ↦ elim q [ ] ],
  λ h. elim h [ inl q ↦ elim q [ ] | inr p ↦ Memᴰ.head p ],
)
mem-snoc a b (c ∷ l) = (
  λ h. elim h [
    | Memᴰ.head p ↦ inl (Memᴰ.head p)
    | Memᴰ.tail q ↦ elim ((mem-snoc a b l).0 q) [ inl m ↦ inl (Memᴰ.tail m) | inr p ↦ inr p ]
  ],
  λ h. elim h [
    | inl m ↦ elim m [
      | Memᴰ.head p ↦ Memᴰ.head p
      | Memᴰ.tail q ↦ Memᴰ.tail ((mem-snoc a b l).1 (inl q))
    ]
    | inr p ↦ Memᴰ.tail ((mem-snoc a b l).1 (inr p))
  ],
)

pub task-injective : {a b : Task} → task a ≡ task b → a ≡ b
task-injective {a} e = ap (λ o. elim o [ task t ↦ t | task_list _ ↦ a | other_object _ ↦ a ]) e

unfoldable pub AllTasks : List Object → Type 0
AllTasks [] = Unit
AllTasks (task t ∷ raw) = AllTasks raw
AllTasks (_ ∷ raw) = ⊥

module _ (selector : Selector) where
  skip-Listed :
      (t : Task) (raw : List Object) (items₀ items : List Task) (n₀ n : ℕ)
      → selector t.object_meta.labels ≡ false
      → Listed selector raw items₀ items n₀ n
      → Listed selector (task t ∷ raw) items₀ items n₀ n
  skip-Listed t raw items₀ items n₀ n no_match l = record {
    exact = λ u. (
      λ h. elim ((l.exact u).0 h) [ inl p ↦ inl p | inr (p, q) ↦ inr (Memᴰ.tail p, q) ],
      λ h. elim h [
        | inl p ↦ (l.exact u).1 (inl p)
        | inr (p, q) ↦ (l.exact u).1 (inr (later u p q, q))
      ],
    );
    starts = l.starts;
    bounds = λ u p q. l.bounds u (later u p q) q;
    reached = elim l.reached [ inl e ↦ inl e | inr (u, p, q, e) ↦ inr (u, Memᴰ.tail p, q, e) ];
  }
    where
      later :
          (u : Task)
          → Memᴰ (task u) (task t ∷ raw)
          → selector u.object_meta.labels ≡ true
          → Memᴰ (task u) raw
      later u (Memᴰ.head p) q =
          let e : u ≡ t = task-injective p in
          absurd (cc (ap (λ x. selector x.object_meta.labels) e))
      later u (Memᴰ.tail p) q = p

  take-Listed :
      (t : Task) (raw : List Object) (items₀ items : List Task) (n₀ n₁ n : ℕ)
      → selector t.object_meta.labels ≡ true
      → n₀ ≤ n₁
      → parse_rv_or_zero t.object_meta.resource_version ≤ n₁
      → (n₁ ≡ n₀) ⊎ (n₁ ≡ parse_rv_or_zero t.object_meta.resource_version)
      → Listed selector raw (items₀ ++ t ∷ []) items n₁ n
      → Listed selector (task t ∷ raw) items₀ items n₀ n
  take-Listed t raw items₀ items n₀ n₁ n match grows least made l = record {
    exact = λ u. (
      λ h. elim ((l.exact u).0 h) [
        | inl p ↦ elim ((mem-snoc u t items₀).0 p) [
          | inl q ↦ inl q
          | inr e ↦ inr (
            Memᴰ.head (ap task e),
            subst (λ x. selector x.object_meta.labels ≡ true) (sym e) match,
          )
        ]
        | inr (p, q) ↦ inr (Memᴰ.tail p, q)
      ],
      λ h. elim h [
        | inl p ↦ (l.exact u).1 (inl ((mem-snoc u t items₀).1 (inl p)))
        | inr (p, q) ↦ back u p q
      ],
    );
    starts = omega (arith, l.starts);
    bounds = bound;
    reached = elim l.reached [
      | inl e ↦ elim made [ inl f ↦ inl (e ∙ f) | inr f ↦ inr (t, Memᴰ.head refl, match, e ∙ f) ]
      | inr (u, p, q, e) ↦ inr (u, Memᴰ.tail p, q, e)
    ];
  }
    where
      back :
          (u : Task)
          → Memᴰ (task u) (task t ∷ raw)
          → selector u.object_meta.labels ≡ true
          → Memᴰ u items
      back u (Memᴰ.head p) q =
          (l.exact u).1 (inl ((mem-snoc u t items₀).1 (inr (task-injective p))))
      back u (Memᴰ.tail p) q = (l.exact u).1 (inr (p, q))

      bound :
          (u : Task)
          → Memᴰ (task u) (task t ∷ raw)
          → selector u.object_meta.labels ≡ true
          → parse_rv_or_zero u.object_meta.resource_version ≤ n
      bound u (Memᴰ.head p) q =
          let e : u ≡ t = task-injective p in
          subst (λ x. parse_rv_or_zero x.object_meta.resource_version ≤ n) (sym e)
            (omega (arith, l.starts))
      bound u (Memᴰ.tail p) q = l.bounds u p q

  pub list_loop_lem :
      (raw : List Object) (items₀ : List Task) (n₀ : ℕ)
      → AllTasks raw
      → (items : List Task) × (n : ℕ) × (list_loop selector raw items₀ n₀ ≡ ok (items, n))
        × Listed selector raw items₀ items n₀ n
  unfolding list_loop AllTasks
  list_loop_lem [] items₀ n₀ all = (
    items₀,
    n₀,
    refl,
    record {
      exact = λ t. (λ h. inl h, λ h. elim h [ inl p ↦ p | inr (p, _) ↦ elim p [ ] ]);
      starts = omega arith;
      bounds = λ t p. elim p [ ];
      reached = inl refl;
    },
  )
  list_loop_lem (task t ∷ raw) items₀ n₀ all =
      let rv = parse_rv_or_zero t.object_meta.resource_version in
      elim (Bool-cases (selector t.object_meta.labels)) [
        | inl match ↦ elim (Bool-cases (ltb n₀ rv)) [
          | inl more ↦
              let (items, n, e, l) = list_loop_lem raw (items₀ ++ t ∷ []) rv all in
              (
                items,
                n,
                rw (match, more) e,
                take-Listed t raw items₀ items n₀ rv n match (ground arith) (omega arith) (inr refl)
                    l,
              )
          | inr less ↦
              let (items, n, e, l) = list_loop_lem raw (items₀ ++ t ∷ []) n₀ all in
              (
                items,
                n,
                rw (match, less) e,
                take-Listed t raw items₀ items n₀ n₀ n match (omega arith) (ground arith) (inl refl)
                    l,
              )
        ]
        | inr no_match ↦
            let (items, n, e, l) = list_loop_lem raw items₀ n₀ all in
            (items, n, rw no_match e, skip-Listed t raw items₀ items n₀ n no_match l)
      ]
  list_loop_lem (task_list l ∷ raw) items₀ n₀ all = elim all [ ]
  list_loop_lem (other_object m ∷ raw) items₀ n₀ all = elim all [ ]
