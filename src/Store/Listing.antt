-- ===== src/Store/Listing.antt =====
-- What List returns, in whatever order the map is walked.
use mathlib.Core.List.{Memᴰ, Permᴰ}
use mathlib.Core.List.Permᴰ
use simple_api_server.Prelude.{
  ◌≡◌, refl, sym, ap, ◌∙◌, ◌↔◌, ◌⊎◌, inl, inr, Bool, Bool-cases, true, false, not, ◌&&◌, some, List,
  [], ◌∷◌, arith, GoString, str_eq, str_eq_iff, if◌then◌else◌,
}
use simple_api_server.Api.{Object}
use simple_api_server.Store
use simple_api_server.Store.{Key, key_eq, lookup, Store, select}
use simple_api_server.Store.Items.{Unique, key_eq_iff, key_eq_refl}

-- The namespace selector of List: the empty one selects all.
abbrev pub InNamespace : GoString → Key → Type 0
InNamespace namespace k = (namespace ≡ []) ⊎ (k.namespace ≡ namespace)

skips : (namespace : GoString) (k : Key) → Bool
skips namespace k = not (str_eq namespace []) && not (str_eq k.namespace namespace)

skips_iff : (namespace : GoString) (k : Key) → (skips namespace k ≡ false) ↔ InNamespace namespace k
unfolding skips
skips_iff namespace k = (
  λ h. ground (arith, str_eq_iff namespace [], str_eq_iff k.namespace namespace),
  λ h. ground (arith, str_eq_iff namespace [], str_eq_iff k.namespace namespace),
)

module _ (namespace : GoString) where
  -- One round of the loop, after its test.
  mem_round :
      (o v : Object) (k : Key) (m : List (Key × Object)) (b : Bool)
      → skips namespace k ≡ b
      → (Memᴰ o (select namespace m) → (j : Key) × InNamespace namespace j × Memᴰ (j, o) m)
      → Memᴰ o (if b then select namespace m else v ∷ select namespace m)
      → (j : Key) × InNamespace namespace j × Memᴰ (j, o) ((k, v) ∷ m)
  mem_round o v k m true e rest h = let (j, i, h') = rest h in (j, i, Memᴰ.tail h')
  mem_round o v k m false e rest (Memᴰ.head p) =
      (k, (skips_iff namespace k).0 e, Memᴰ.head (λ i. (k, p i)))
  mem_round o v k m false e rest (Memᴰ.tail h) = let (j, i, h') = rest h in (j, i, Memᴰ.tail h')

  mem-select :
      (o : Object) (m : List (Key × Object))
      → Memᴰ o (select namespace m)
      → (k : Key) × InNamespace namespace k × Memᴰ (k, o) m
  unfolding select skips
  mem-select o [] h = elim h [ ]
  mem-select o ((k, v) ∷ m) h = mem_round o v k m (skips namespace k) refl (mem-select o m) h

  select-mem :
      (k : Key) (o : Object) (m : List (Key × Object))
      → InNamespace namespace k
      → Memᴰ (k, o) m
      → Memᴰ o (select namespace m)
  unfolding select skips
  select-mem k o [] i h = elim h [ ]
  select-mem k o ((j, v) ∷ m) i (Memᴰ.head p) =
      let kj : j ≡ k = sym (ap (λ x. x.0) p) in
      rw (kj, (skips_iff namespace k).1 i) (Memᴰ.head (ap (λ x. x.1) p))
  select-mem k o ((j, v) ∷ m) i (Memᴰ.tail h) = elim (Bool-cases (skips namespace j)) [
    | inl e ↦ rw e (select-mem k o m i h)
    | inr e ↦ rw e (Memᴰ.tail (select-mem k o m i h))
  ]

mem-perm {ℓ} : {A : Type ℓ} {a : A} {l m : List A} → Permᴰ l m → Memᴰ a l → Memᴰ a m
mem-perm Permᴰ.nil h = h
mem-perm (Permᴰ.cons e d) (Memᴰ.head p) = Memᴰ.head (p ∙ e)
mem-perm (Permᴰ.cons e d) (Memᴰ.tail h) = Memᴰ.tail (mem-perm d h)
mem-perm (Permᴰ.swap e f) (Memᴰ.head p) = Memᴰ.tail (Memᴰ.head (p ∙ e))
mem-perm (Permᴰ.swap e f) (Memᴰ.tail (Memᴰ.head p)) = Memᴰ.head (p ∙ f)
mem-perm (Permᴰ.swap e f) (Memᴰ.tail (Memᴰ.tail h)) = Memᴰ.tail (Memᴰ.tail h)
mem-perm (Permᴰ.trans d e) h = mem-perm e (mem-perm d h)

lookup-mem : (k : Key) (o : Object) (m : List (Key × Object)) → lookup k m ≡ some o → Memᴰ (k, o) m
unfolding lookup
lookup-mem k o [] h = cc
lookup-mem k o ((j, v) ∷ m) h = elim (Bool-cases (key_eq j k)) [
  | inl e ↦ Memᴰ.head (λ i. (sym ((key_eq_iff j k).0 e) i, found e i))
  | inr e ↦ Memᴰ.tail (lookup-mem k o m (rw (e, lookup) at h))
]
  where
    found : key_eq j k ≡ true → o ≡ v
    found e = ground arith

mem-lookup :
    (k : Key) (o : Object) (m : List (Key × Object))
    → Unique m
    → Memᴰ (k, o) m
    → lookup k m ≡ some o
unfolding lookup
mem-lookup k o [] u h = elim h [ ]
mem-lookup k o ((j, v) ∷ m) u (Memᴰ.head p) =
    rw (sym (ap (λ x. x.0) p), key_eq_refl k) (ap (λ x. some x.1) (sym p))
mem-lookup k o ((j, v) ∷ m) u (Memᴰ.tail h) = ground (arith, key_eq_iff j k, mem-lookup k o m u.1 h)

-- On a store without repeated keys and for any order of the walk, List returns exactly the objects
-- stored under keys of the namespace, those under all keys for the empty namespace.
pub list_iff :
    (order : List (Key × Object) → List (Key × Object)) (namespace : GoString) (s : Store)
    → ((m : List (Key × Object)) → Permᴰ (order m) m)
    → Unique s.items
    → (o : Object)
    → Memᴰ o (Store.list order namespace s)
      ↔ ((k : Key) × InNamespace namespace k × (lookup k s.items ≡ some o))
unfolding Store.list
list_iff order namespace s shuffles u o = (
  λ h.
      let (k, i, p) = mem-select namespace o (order s.items) h in
      (k, i, mem-lookup k o s.items u (mem-perm (shuffles s.items) p)),
  λ (k, i, e).
      select-mem namespace k o (order s.items) i
        (mem-perm (Permᴰ.symm (shuffles s.items)) (lookup-mem k o s.items e)),
)
