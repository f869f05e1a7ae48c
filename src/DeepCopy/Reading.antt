-- ===== src/DeepCopy/Reading.antt =====
-- What a Task reads depends on the arrays at its addresses only.
use simple_api_server.Prelude.{ℕ, ◌<◌, ◌≡◌, refl, ap, none, some}
use simple_api_server.Kube.{Slice}
use simple_api_server.DeepCopy.{Heap, Ref, TaskRef, read_strings, read_conditions, read}

-- Every address of the Task satisfies a predicate.
abbrev pub AtRef : (ℕ → Type 0) → Ref → Type 0
AtRef p none = Unit
AtRef p (some a) = p a

abbrev pub Addresses : (ℕ → Type 0) → TaskRef → Type 0
Addresses p t = AtRef p t.spec.command × AtRef p t.spec.args × AtRef p t.status.conditions

pub AtRef-map : {p q : ℕ → Type 0} (r : Ref) → ((a : ℕ) → p a → q a) → AtRef p r → AtRef q r
AtRef-map none f h = tt
AtRef-map (some a) f h = f a h

pub Addresses-map :
    {p q : ℕ → Type 0} (t : TaskRef) → ((a : ℕ) → p a → q a) → Addresses p t → Addresses q t
Addresses-map t f (c, a, s) =
    (AtRef-map t.spec.command f c, AtRef-map t.spec.args f a, AtRef-map t.status.conditions f s)

-- The slices of the Task are allocated.
abbrev pub Allocated : Heap → TaskRef → Type 0
Allocated h = Addresses (λ a. a < h.next)

-- Two heaps agree on the addresses of a kind.
pub record Agree (p : ℕ → Type 0) (h h' : Heap) : Type 0 where
  pub strings : (a : ℕ) → p a → h'.strings a ≡ h.strings a
  pub conditions : (a : ℕ) → p a → h'.conditions a ≡ h.conditions a

module _ (p : ℕ → Type 0) (h h' : Heap) (g : Agree p h h') where
  pub read_strings-Agree : (r : Ref) → AtRef p r → read_strings h' r ≡ read_strings h r
  unfolding read_strings
  read_strings-Agree none q = refl
  read_strings-Agree (some a) q = ap Slice.slice (g.strings a q)

  pub read_conditions-Agree : (r : Ref) → AtRef p r → read_conditions h' r ≡ read_conditions h r
  unfolding read_conditions
  read_conditions-Agree none q = refl
  read_conditions-Agree (some a) q = ap Slice.slice (g.conditions a q)

-- A Task reads the same where its slices do.
pub read-eq :
    (h k : Heap) (t u : TaskRef)
    → u.type_meta ≡ t.type_meta
    → u.object_meta ≡ t.object_meta
    → u.spec.image ≡ t.spec.image
    → u.status.phase ≡ t.status.phase
    → u.status.observed_generation ≡ t.status.observed_generation
    → read_strings k u.spec.command ≡ read_strings h t.spec.command
    → read_strings k u.spec.args ≡ read_strings h t.spec.args
    → read_conditions k u.status.conditions ≡ read_conditions h t.status.conditions
    → read k u ≡ read h t
unfolding read
read-eq h k t u e₁ e₂ e₃ e₄ e₅ c a s = λ i. record {
  type_meta = e₁ i;
  object_meta = e₂ i;
  spec = record { image = e₃ i; command = c i; args = a i };
  status = record { phase = e₄ i; conditions = s i; observed_generation = e₅ i };
}

pub read-Agree :
    (p : ℕ → Type 0) (h h' : Heap) (t : TaskRef)
    → Agree p h h'
    → Addresses p t
    → read h' t ≡ read h t
read-Agree p h h' t g (c, a, s) =
    read-eq h h' t t refl refl refl refl refl (read_strings-Agree p h h' g t.spec.command c)
      (read_strings-Agree p h h' g t.spec.args a)
      (read_conditions-Agree p h h' g t.status.conditions s)

abbrev pub Below : ℕ → ℕ → Type 0
Below n a = a < n
