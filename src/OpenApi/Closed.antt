-- ===== src/OpenApi/Closed.antt =====
-- GetOpenAPIDefinitions of pkg/generated/openapi/zz_generated.openapi.go is complete: whoever
-- resolves the references of the published definitions finds each of them.
use Prim.Native.String.{String}
use mathlib.Core.List.{Memᴰ}
use text.Mathlib.Text.{◌==◌}
use text.Mathlib.TextEquality.{eq_iff}
use simple_api_server.Prelude.{
  ◌≡◌, refl, sym, ap, ◌∙◌, ◌↔◌, inl, inr, Bool, Bool-cases, true, false, ◌&&◌, List, [], ◌∷◌, arith,
  if◌then◌else◌,
}
use simple_api_server.OpenApi.Schema.{
  ModelName, model_eq, model_eq_iff, Definition, references, dependencies, property_names,
  required_names, main_schema,
}
use simple_api_server.OpenApi.Definitions.{get_openapi_definitions}

module _ {A : Type 0} where
  all_of : (A → Bool) → List A → Bool
  all_of p [] = true
  all_of p (x ∷ l) = if p x then all_of p l else false

  all_of-Memᴰ : (p : A → Bool) (l : List A) (x : A) → all_of p l ≡ true → Memᴰ x l → p x ≡ true
  unfolding all_of
  all_of-Memᴰ p [] x h m = elim m [ ]
  all_of-Memᴰ p (y ∷ l) x h (Memᴰ.head e) = ap p e ∙ ground arith
  all_of-Memᴰ p (y ∷ l) x h (Memᴰ.tail m) = all_of-Memᴰ p l x (ground arith) m

has_name : ModelName → List ModelName → Bool
has_name m [] = false
has_name m (n ∷ l) = if model_eq m n then true else has_name m l

has_name-Memᴰ : (m : ModelName) (l : List ModelName) → has_name m l ≡ true → Memᴰ m l
unfolding has_name
has_name-Memᴰ m [] h = cc
has_name-Memᴰ m (n ∷ l) h = elim (Bool-cases (model_eq m n)) [
  | inl e ↦ Memᴰ.head ((model_eq_iff m n).0 e)
  | inr e ↦ Memᴰ.tail (has_name-Memᴰ m l (rw (e, has_name) at h))
]

Memᴰ-has_name : (m : ModelName) (l : List ModelName) → Memᴰ m l → has_name m l ≡ true
unfolding has_name
Memᴰ-has_name m [] h = elim h [ ]
Memᴰ-has_name m (n ∷ l) (Memᴰ.head p) = rw ((model_eq_iff m n).1 p)
Memᴰ-has_name m (n ∷ l) (Memᴰ.tail h) = elim (Bool-cases (model_eq m n)) [
  | inl e ↦ rw e
  | inr e ↦ rw e (Memᴰ-has_name m l h)
]

has_text : String → List String → Bool
has_text s [] = false
has_text s (t ∷ l) = if s == t then true else has_text s l

has_text-Memᴰ : (s : String) (l : List String) → has_text s l ≡ true → Memᴰ s l
unfolding has_text
has_text-Memᴰ s [] h = cc
has_text-Memᴰ s (t ∷ l) h = elim (Bool-cases (s == t)) [
  | inl e ↦ Memᴰ.head ((eq_iff s t).0 e)
  | inr e ↦ Memᴰ.tail (has_text-Memᴰ s l (rw (e, has_text) at h))
]

abbrev Table : Type 0
Table = List (ModelName × Definition)

table_names : Table → List ModelName
table_names [] = []
table_names ((k, _) ∷ t) = k ∷ table_names t

table_names-Memᴰ :
    (m : ModelName) (t : Table) → Memᴰ m (table_names t) → (d : Definition) × Memᴰ (m, d) t
unfolding table_names
table_names-Memᴰ m [] h = elim h [ ]
table_names-Memᴰ m ((k, d) ∷ t) (Memᴰ.head p) = (d, Memᴰ.head (λ i. (p i, d)))
table_names-Memᴰ m ((k, d) ∷ t) (Memᴰ.tail h) =
    let (e, h') = table_names-Memᴰ m t h in (e, Memᴰ.tail h')

Memᴰ-table_names :
    (m : ModelName) (d : Definition) (t : Table) → Memᴰ (m, d) t → Memᴰ m (table_names t)
unfolding table_names
Memᴰ-table_names m d [] h = elim h [ ]
Memᴰ-table_names m d ((k, e) ∷ t) (Memᴰ.head p) = Memᴰ.head (ap (λ x. x.0) p)
Memᴰ-table_names m d ((k, e) ∷ t) (Memᴰ.tail h) = Memᴰ.tail (Memᴰ-table_names m d t h)

-- One definition is complete within a table.
complete : List ModelName → ModelName × Definition → Bool
complete names (_, d) =
    all_of (λ m. has_name m names) (references d)
    && all_of (λ m. has_name m (dependencies d)) (references d)
    && all_of (λ m. has_name m (references d)) (dependencies d)
    && all_of (λ x. has_text x (property_names (main_schema d))) (required_names (main_schema d))

complete_lem :
    (names : List ModelName) (k : ModelName) (d : Definition)
    → complete names (k, d) ≡ true
    → (all_of (λ m. has_name m names) (references d) ≡ true)
      × (all_of (λ m. has_name m (dependencies d)) (references d) ≡ true)
      × (all_of (λ m. has_name m (references d)) (dependencies d) ≡ true)
      × (all_of (λ x. has_text x (property_names (main_schema d))) (required_names (main_schema d))
          ≡ true)
unfolding complete
complete_lem names k d h = ground arith

definitions-complete :
    all_of (complete (table_names get_openapi_definitions)) get_openapi_definitions ≡ true
unfolding all_of complete has_name has_text model_eq table_names references dependencies
definitions-complete = refl

-- No name is defined twice.
distinct : List ModelName → Bool
distinct [] = true
distinct (m ∷ l) = if has_name m l then false else distinct l

definitions-distinct : distinct (table_names get_openapi_definitions) ≡ true
unfolding distinct has_name model_eq table_names
definitions-distinct = refl

distinct-Memᴰ :
    (m : ModelName) (d e : Definition) (t : Table)
    → distinct (table_names t) ≡ true
    → Memᴰ (m, d) t
    → Memᴰ (m, e) t
    → d ≡ e
unfolding distinct table_names
distinct-Memᴰ m d e [] h p q = elim p [ ]
distinct-Memᴰ m d e ((k, c) ∷ t) h p q = elim (Bool-cases (has_name k (table_names t))) [
  | inl f ↦ absurd (cc (rw (f, distinct) at h))
  | inr f ↦ first f (distinct-Memᴰ m d e t (rw (f, distinct) at h)) p q
]
  where
    clash : has_name k (table_names t) ≡ false → (b : Definition) → m ≡ k → Memᴰ (m, b) t → ⊥
    clash f b same there = cc (Memᴰ-has_name m (table_names t) (Memᴰ-table_names m b t there))

    first :
        has_name k (table_names t) ≡ false
        → (Memᴰ (m, d) t → Memᴰ (m, e) t → d ≡ e)
        → Memᴰ (m, d) ((k, c) ∷ t)
        → Memᴰ (m, e) ((k, c) ∷ t)
        → d ≡ e
    first f rest (Memᴰ.head a) (Memᴰ.head b) = ap (λ x. x.1) a ∙ sym (ap (λ x. x.1) b)
    first f rest (Memᴰ.head a) (Memᴰ.tail b) = absurd (clash f e (ap (λ x. x.0) a) b)
    first f rest (Memᴰ.tail a) (Memᴰ.head b) = absurd (clash f d (ap (λ x. x.0) b) a)
    first f rest (Memᴰ.tail a) (Memᴰ.tail b) = rest a b

-- In every published definition, what the schema refers to is published too and listed among the
-- dependencies, nothing else is listed there, and every required name is a property of the schema.
pub definitions_closed :
    (k : ModelName) (d : Definition)
    → Memᴰ (k, d) get_openapi_definitions
    → ((m : ModelName)
        → Memᴰ m (references d)
        → (e : Definition) × Memᴰ (m, e) get_openapi_definitions)
      × ((m : ModelName) → Memᴰ m (references d) ↔ Memᴰ m (dependencies d))
      × ((x : String)
          → Memᴰ x (required_names (main_schema d))
          → Memᴰ x (property_names (main_schema d)))
unfolding complete
definitions_closed k d h =
    let names = table_names get_openapi_definitions in
    let (a, b, c, e) =
      complete_lem names k d
        (all_of-Memᴰ (complete names) get_openapi_definitions (k, d) definitions-complete h) in
    (
      λ m p.
          table_names-Memᴰ m get_openapi_definitions
            (has_name-Memᴰ m names (all_of-Memᴰ _ _ m a p)),
      λ m. (
        λ p. has_name-Memᴰ m (dependencies d) (all_of-Memᴰ _ _ m b p),
        λ p. has_name-Memᴰ m (references d) (all_of-Memᴰ _ _ m c p),
      ),
      λ x p. has_text-Memᴰ x (property_names (main_schema d)) (all_of-Memᴰ _ _ x e p),
    )

-- No name is published with two definitions.
pub defined_once :
    (m : ModelName) (d e : Definition)
    → Memᴰ (m, d) get_openapi_definitions
    → Memᴰ (m, e) get_openapi_definitions
    → d ≡ e
defined_once m d e = distinct-Memᴰ m d e get_openapi_definitions definitions-distinct
