-- ===== src/DeepCopy/Copying.antt =====
-- What DeepCopyInto makes: the same Task at fresh addresses.
use simple_api_server.Prelude.{ℕ, ◌≤◌, ◌<◌, ◌≡◌, refl, ◌∙◌, none, some, arith}
use simple_api_server.DeepCopy.{
  Heap, Ref, TaskRef, read_strings, read_conditions, read, copy_strings, copy_conditions,
  deep_copy_spec, deep_copy_status, deep_copy,
}
use simple_api_server.DeepCopy.Reading.{
  AtRef, AtRef-map, Addresses, Allocated, Agree, read_strings-Agree, read_conditions-Agree, read-eq,
  Below,
}

pub Agree-trans :
    (n m : ℕ) (h h' h'' : Heap)
    → n ≤ m
    → Agree (Below n) h h'
    → Agree (Below m) h' h''
    → Agree (Below n) h h''
Agree-trans n m h h' h'' le f g = record {
  strings = λ a q. g.strings a (omega arith) ∙ f.strings a q;
  conditions = λ a q. g.conditions a (omega arith) ∙ f.conditions a q;
}

AtRef-mono : (n m : ℕ) (r : Ref) → n ≤ m → AtRef (Below n) r → AtRef (Below m) r
AtRef-mono n m r le = AtRef-map r (λ a (q : a < n). omega arith)

AtRef-antitone : (n m : ℕ) (r : Ref) → n ≤ m → AtRef (λ a. m ≤ a) r → AtRef (λ a. n ≤ a) r
AtRef-antitone n m r le = AtRef-map r (λ a (q : m ≤ a). omega arith)

-- A copy of one slice: what it holds, where it is, and what is left alone.
record Copied (h : Heap) (r : Ref) (h' : Heap) : Type 0 where
  fresh : AtRef (λ a. h.next ≤ a) r
  allocated : AtRef (Below h'.next) r
  grows : h.next ≤ h'.next
  keeps : Agree (Below h.next) h h'

copy_strings-Copied :
    (r : Ref) (h : Heap)
    → Copied h (copy_strings r h).0 (copy_strings r h).1
      × (read_strings (copy_strings r h).1 (copy_strings r h).0 ≡ read_strings h r)
unfolding copy_strings read_strings
copy_strings-Copied none h = (
  record {
    fresh = tt;
    allocated = tt;
    grows = omega arith;
    keeps = record { strings = λ a p. refl; conditions = λ a p. refl };
  },
  refl,
)
copy_strings-Copied (some a) h = (
  record {
    fresh = omega arith;
    allocated = omega arith;
    grows = omega arith;
    keeps = record { strings = λ b p. ground arith; conditions = λ b p. refl };
  },
  ground arith,
)

copy_conditions-Copied :
    (r : Ref) (h : Heap)
    → Copied h (copy_conditions r h).0 (copy_conditions r h).1
      × (read_conditions (copy_conditions r h).1 (copy_conditions r h).0 ≡ read_conditions h r)
unfolding copy_conditions read_conditions
copy_conditions-Copied none h = (
  record {
    fresh = tt;
    allocated = tt;
    grows = omega arith;
    keeps = record { strings = λ a p. refl; conditions = λ a p. refl };
  },
  refl,
)
copy_conditions-Copied (some a) h = (
  record {
    fresh = omega arith;
    allocated = omega arith;
    grows = omega arith;
    keeps = record { strings = λ b p. refl; conditions = λ b p. ground arith };
  },
  ground arith,
)

-- What a deep copy leaves: the same Task at fresh addresses, and the old Task as it was.
pub record Copy (h : Heap) (t c : TaskRef) (h' : Heap) : Type 0 where
  pub same : read h' c ≡ read h t
  pub fresh : Addresses (λ a. h.next ≤ a) c
  pub allocated : Addresses (Below h'.next) c
  pub grows : h.next ≤ h'.next
  pub keeps : Agree (Below h.next) h h'

pub deep_copy-Copy :
    (h : Heap) (t : TaskRef) → Allocated h t → Copy h t (deep_copy t h).0 (deep_copy t h).1
unfolding deep_copy deep_copy_spec deep_copy_status
deep_copy-Copy h t (ac, aa, as') =
    let c = (copy_strings t.spec.command h).0 in
    let h₁ = (copy_strings t.spec.command h).1 in
    let (p₁, e₁) = copy_strings-Copied t.spec.command h in
    let a = (copy_strings t.spec.args h₁).0 in
    let h₂ = (copy_strings t.spec.args h₁).1 in
    let (p₂, e₂) = copy_strings-Copied t.spec.args h₁ in
    let s = (copy_conditions t.status.conditions h₂).0 in
    let h₃ = (copy_conditions t.status.conditions h₂).1 in
    let (p₃, e₃) = copy_conditions-Copied t.status.conditions h₂ in
    let k₁₃ : Agree (Below h₁.next) h₁ h₃ =
      Agree-trans h₁.next h₂.next h₁ h₂ h₃ p₂.grows p₂.keeps p₃.keeps in
    let k₂ : Agree (Below h.next) h h₂ =
      Agree-trans h.next h₁.next h h₁ h₂ p₁.grows p₁.keeps p₂.keeps in
    record {
      same =
          read-eq h h₃ t
            (record t {
              spec = record t.spec { command = c; args = a };
              status = record t.status { conditions = s };
            })
            refl refl refl refl refl
            (read_strings-Agree (Below h₁.next) h₁ h₃ k₁₃ c p₁.allocated ∙ e₁)
            (read_strings-Agree (Below h₂.next) h₂ h₃ p₃.keeps a p₂.allocated
              ∙ e₂
              ∙ read_strings-Agree (Below h.next) h h₁ p₁.keeps t.spec.args aa)
            (e₃ ∙ read_conditions-Agree (Below h.next) h h₂ k₂ t.status.conditions as');
      fresh = (
        p₁.fresh,
        AtRef-antitone h.next h₁.next a p₁.grows p₂.fresh,
        AtRef-antitone h.next h₂.next s (omega (arith, p₁.grows, p₂.grows)) p₃.fresh,
      );
      allocated = (
        AtRef-mono h₁.next h₃.next c (omega (arith, p₂.grows, p₃.grows)) p₁.allocated,
        AtRef-mono h₂.next h₃.next a p₃.grows p₂.allocated,
        p₃.allocated,
      );
      grows = omega (arith, p₁.grows, p₂.grows, p₃.grows);
      keeps = Agree-trans h.next h₂.next h h₂ h₃ (omega (arith, p₁.grows, p₂.grows)) k₂ p₃.keeps;
    }
