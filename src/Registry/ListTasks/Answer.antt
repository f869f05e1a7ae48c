-- ===== src/Registry/ListTasks/Answer.antt =====
-- The TaskList that List answers with.
use mathlib.Core.List.{Memᴰ, Permᴰ}
use simple_api_server.Prelude.{
  ℕ, ◌≤◌, ◌≡◌, refl, ◌↔◌, ◌⊎◌, inl, inr, Bool-cases, true, false, Option, some, List, [], ◌∷◌,
  arith, ◌==◌, if◌then◌else◌, some-injective,
}
use simple_api_server.Prelude.Decimal.{format_uint}
use simple_api_server.Kube.{GroupResource}
use simple_api_server.Kube.Outcome.{ok}
use simple_api_server.Api.{Task, Object, task, task_list, other_object, empty_type_meta}
use simple_api_server.Rest.{Library}
use simple_api_server.Store
use simple_api_server.Store.{Key, Store, lookup}
use simple_api_server.Store.Invariant.{IsValid}
use simple_api_server.Store.Listing.{InNamespace, list_iff}
use simple_api_server.Handler.{Order, run}
use simple_api_server.Registry
use simple_api_server.Registry.{finish_list}
use simple_api_server.Registry.Checks.{
  parse_rv_or_zero, format_rv, ListOptions, has_field_selector, selector_of, list_loop,
}
use simple_api_server.Registry.Versions.{parse_rv_or_zero-format_rv}
use simple_api_server.Registry.ListTasks.{AllTasks, list_loop_lem}

-- A store that holds Tasks only.
abbrev pub OnlyTasks : Store → Type 0
OnlyTasks s = (k : Key) (o : Object) → lookup k s.items ≡ some o → (t : Task) × (o ≡ task t)

to-AllTasks :
    (raw : List Object) → ((o : Object) → Memᴰ o raw → (t : Task) × (o ≡ task t)) → AllTasks raw
unfolding AllTasks
to-AllTasks [] h = tt
to-AllTasks (task t ∷ raw) h = to-AllTasks raw (λ o m. h o (Memᴰ.tail m))
to-AllTasks (task_list l ∷ raw) h = let (t, e) = h (task_list l) (Memᴰ.head refl) in cc
to-AllTasks (other_object m ∷ raw) h = let (t, e) = h (other_object m) (Memᴰ.head refl) in cc

-- The version of a stored Task is a number, and not above the counter.
version-stored :
    (s : Store) (k : Key) (t : Task)
    → IsValid s
    → lookup k s.items ≡ some (task t)
    → parse_rv_or_zero t.object_meta.resource_version ≤ s.rv
unfolding parse_rv_or_zero
version-stored s k t v e =
    let (n, le, stamped) = v.stamped k (task t) e in
    let text : t.object_meta.resource_version ≡ format_uint n = some-injective stamped in
    rw (text, parse_rv_or_zero-format_rv n (omega (arith, v.small))) le

-- The TaskList of an answer.
abbrev pub list_of : List Task → ℕ → Object
list_of items version =
    task_list
      (record { type_meta = empty_type_meta; resource_version = format_rv version; items = items })

module _ {Ctx : Type 0} (lib : Library Ctx) (order : Order) (gr : GroupResource) (ctx : Ctx)
    (options : Option ListOptions) (s : Store) where
  run-list :
      (items : List Task) (n : ℕ)
      → has_field_selector options ≡ false
      → list_loop
          (selector_of lib.everything options)
          (Store.list order (lib.namespace_from ctx).0 s)
          []
          0
        ≡ ok (items, n)
      → run order (Registry.list lib gr ctx options) s
        ≡ (ok (list_of items (if n == 0 then s.rv else n)), s)
  unfolding Registry.list run finish_list
  run-list items n plain e =
      rw (plain, Registry.list)
        (rw (e, run) (elim (Bool-cases (n == 0)) [ inl f ↦ rw (f, run) | inr f ↦ rw (f, run) ]))

  -- List with no field selector, on a valid store of Tasks: the store does not change, and the answer
  -- is a TaskList whose items are exactly the stored Tasks that are in the namespace of the request
  -- and match the selector, and whose version is at least that of each item, at most that of the
  -- store, and one of these. For any order in which the map is walked.
  pub list_lem :
      ((m : List (Key × Object)) → Permᴰ (order m) m)
      → IsValid s
      → OnlyTasks s
      → has_field_selector options ≡ false
      → (items : List Task) × (version : ℕ) × (run order (Registry.list lib gr ctx options) s
          ≡ (ok (list_of items version), s))
        × ((t : Task)
            → Memᴰ t items ↔ (
                (k : Key) × InNamespace (lib.namespace_from ctx).0 k
                × (lookup k s.items ≡ some (task t))
                × (selector_of lib.everything options t.object_meta.labels ≡ true)))
        × ((t : Task) → Memᴰ t items → parse_rv_or_zero t.object_meta.resource_version ≤ version)
        × (version ≤ s.rv)
        × ((version ≡ s.rv)
            ⊎ ((t : Task) × Memᴰ t items
                × (version ≡ parse_rv_or_zero t.object_meta.resource_version)))
  list_lem shuffles valid only plain =
      let ns = (lib.namespace_from ctx).0 in
      let selector = selector_of lib.everything options in
      let raw = Store.list order ns s in
      let listed = list_iff order ns s shuffles valid.unique in
      let all : AllTasks raw =
        to-AllTasks raw (λ o m. let (k, _, e) = (listed o).0 m in only k o e) in
      let (items, n, e, l) = list_loop_lem selector raw [] 0 all in
      let item : (t : Task)
          → Memᴰ t items
          → Memᴰ (task t) raw × (selector t.object_meta.labels ≡ true) =
        λ t m. elim ((l.exact t).0 m) [ inl p ↦ elim p [ ] | inr p ↦ p ] in
      let below : (t : Task)
          → Memᴰ (task t) raw
          → parse_rv_or_zero t.object_meta.resource_version ≤ s.rv =
        λ t m. let (k, _, f) = (listed (task t)).0 m in version-stored s k t valid f in
      let made : (if n == 0 then s.rv else n) ≤ s.rv = elim l.reached [
        | inl f ↦ ground arith
        | inr (t, r, p, f) ↦ ground (arith, below t r)
      ] in
      (
        items,
        if n == 0 then s.rv else n,
        run-list items n plain e,
        λ t. (
          λ m. let (r, p) = item t m in let (k, i, f) = (listed (task t)).0 r in (k, i, f, p),
          λ (k, i, f, p). (l.exact t).1 (inr ((listed (task t)).1 (k, i, f), p)),
        ),
        λ t m. let (r, p) = item t m in ground (arith, l.bounds t r p, below t r),
        made,
        elim (Bool-cases (n == 0)) [
          | inl f ↦ rw f (inl refl)
          | inr f ↦ rw f (elim l.reached [
            | inl g ↦ absurd (ground arith)
            | inr (t, r, p, g) ↦ inr (t, (l.exact t).1 (inr (r, p)), g)
          ])
        ],
      )
