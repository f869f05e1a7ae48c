-- ===== src/Store/Items.antt =====
-- Keys and Go's `map[Key]V` of pkg/storage/inmemory/store.go, as an association list whose order
-- stands for no order: theorems about iteration hold for each permutation of it.
use simple_api_server.Prelude.{
  suc, ◌≡◌, ◌≢◌, refl, ap, ◌↔◌, Bool, true, false, ◌&&◌, Option, none, some, List, [], ◌∷◌, ◌++◌,
  arith, GoString, str_eq, str_eq_iff, text, if◌then◌else◌, &&_iff, length,
}

pub record Key : Type 0 where
  pub namespace : GoString
  pub name : GoString

-- Key.String
key_string : Key → GoString
unfolding str_eq
key_string k = if str_eq k.namespace [] then k.name else k.namespace ++ text "/" ++ k.name

-- `==` on the struct.
unfoldable pub key_eq : Key → Key → Bool
key_eq k j = str_eq k.namespace j.namespace && str_eq k.name j.name

pub key_eq_iff : (k j : Key) → (key_eq k j ≡ true) ↔ (k ≡ j)
unfolding key_eq
key_eq_iff k j = (
  λ h.
      let (p, q) = (&&_iff (str_eq k.namespace j.namespace) (str_eq k.name j.name)).0 h in
      let e : k.namespace ≡ j.namespace = (str_eq_iff k.namespace j.namespace).0 p in
      let f : k.name ≡ j.name = (str_eq_iff k.name j.name).0 q in
      λ i. record { namespace = e i; name = f i },
  λ e. (&&_iff (str_eq k.namespace j.namespace) (str_eq k.name j.name)).1 (
    (str_eq_iff k.namespace j.namespace).1 (ap (λ (x : Key). x.namespace) e),
    (str_eq_iff k.name j.name).1 (ap (λ (x : Key). x.name) e),
  ),
)

pub key_eq_refl : (k : Key) → key_eq k k ≡ true
key_eq_refl k = (key_eq_iff k k).1 refl

pub key_eq_ne : (k j : Key) → k ≢ j → key_eq k j ≡ false
key_eq_ne k j h = ground (arith, key_eq_iff k j)

module _ {ℓ} {V : Type ℓ} where
  -- obj, ok := items[key]
  unfoldable pub lookup : Key → List (Key × V) → Option V
  lookup k [] = none
  lookup k ((j, v) ∷ m) = if key_eq j k then some v else lookup k m

  -- items[key] = v
  unfoldable pub put : Key → V → List (Key × V) → List (Key × V)
  put k v [] = (k, v) ∷ []
  put k v ((j, w) ∷ m) = if key_eq j k then (j, v) ∷ m else (j, w) ∷ put k v m

  -- delete(items, key)
  unfoldable pub remove : Key → List (Key × V) → List (Key × V)
  remove k [] = []
  remove k ((j, w) ∷ m) = if key_eq j k then m else (j, w) ∷ remove k m

  -- A map holds a key once.
  abbrev pub Unique : List (Key × V) → Type ℓ
  Unique [] = Unit
  Unique ((k, v) ∷ m) = (lookup k m ≡ none) × Unique m

  pub lookup-put :
      (k j : Key) (v : V) (m : List (Key × V))
      → lookup j (put k v m) ≡ (if key_eq k j then some v else lookup j m)
  unfolding lookup put
  lookup-put k j v [] = refl
  lookup-put k j v ((i, w) ∷ m) =
      ground (arith, key_eq_iff i k, key_eq_iff i j, key_eq_iff k j, lookup-put k j v m)

  pub put-Unique : (k : Key) (v : V) (m : List (Key × V)) → Unique m → Unique (put k v m)
  unfolding lookup put
  put-Unique k v [] u = (refl, tt)
  put-Unique k v ((i, w) ∷ m) u =
      ground (arith, key_eq_iff i k, key_eq_iff k i, lookup-put k i v m, put-Unique k v m)

  pub lookup-remove_ne :
      (k j : Key) (m : List (Key × V)) → key_eq k j ≡ false → lookup j (remove k m) ≡ lookup j m
  unfolding lookup remove
  lookup-remove_ne k j [] h = refl
  lookup-remove_ne k j ((i, w) ∷ m) h =
      ground (arith, key_eq_iff i k, key_eq_iff i j, key_eq_iff k j, lookup-remove_ne k j m)

  pub lookup-remove_self : (k : Key) (m : List (Key × V)) → Unique m → lookup k (remove k m) ≡ none
  unfolding lookup remove
  lookup-remove_self k [] u = refl
  lookup-remove_self k ((i, w) ∷ m) u = ground (arith, key_eq_iff i k, lookup-remove_self k m)

  pub lookup-remove :
      (k j : Key) (m : List (Key × V))
      → Unique m
      → lookup j (remove k m) ≡ (if key_eq k j then none else lookup j m)
  lookup-remove k j m u =
      ground (arith, key_eq_iff k j, lookup-remove_self k m, lookup-remove_ne k j m)

  pub remove-Unique : (k : Key) (m : List (Key × V)) → Unique m → Unique (remove k m)
  unfolding lookup remove
  remove-Unique k [] u = tt
  remove-Unique k ((i, w) ∷ m) u =
      ground (arith, key_eq_iff i k, key_eq_iff k i, lookup-remove_ne k i m, remove-Unique k m)

  pub length-put :
      (k : Key) (v : V) (m : List (Key × V))
      → length (put k v m) ≡ (elim (lookup k m) [ none ↦ suc (length m) | some _ ↦ length m ])
  unfolding lookup put
  length-put k v [] = refl
  length-put k v ((i, w) ∷ m) = ground (arith, length-put k v m)

  pub length-remove :
      (k : Key) (v : V) (m : List (Key × V))
      → lookup k m ≡ some v
      → suc (length (remove k m)) ≡ length m
  unfolding lookup remove
  length-remove k v [] h = cc
  length-remove k v ((i, w) ∷ m) h = ground (arith, length-remove k v m)
