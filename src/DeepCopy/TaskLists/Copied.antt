-- ===== src/DeepCopy/TaskLists/Copied.antt =====
-- The copies of the items of a TaskList.
use simple_api_server.Prelude.{
  ℕ, ◌≤◌, ◌<◌, ◌≡◌, refl, ap₂, ◌∙◌, List, [], ◌∷◌, map, All, All-map, arith,
}
use simple_api_server.DeepCopy.{Heap, TaskRef, read, deep_copy}
use simple_api_server.DeepCopy.Reading.{
  Addresses, Addresses-map, Allocated, Agree, read-Agree, Below,
}
use simple_api_server.DeepCopy.Copying.{Agree-trans, deep_copy-Copy}
use simple_api_server.DeepCopy.TaskLists.{copy_items}

pub read_each-Agree :
    (p : ℕ → Type 0) (h h' : Heap) (ts : List TaskRef)
    → Agree p h h'
    → All (Addresses p) ts
    → map (read h') ts ≡ map (read h) ts
read_each-Agree p h h' [] g q = refl
read_each-Agree p h h' (t ∷ ts) g (q, qs) =
    ap₂ ◌∷◌ (read-Agree p h h' t g q) (read_each-Agree p h h' ts g qs)

abbrev pub Above : ℕ → TaskRef → Type 0
Above n = Addresses (λ a. n ≤ a)

-- What the copies of the items leave: the same Tasks at fresh addresses, and the items as they were.
pub record ItemsCopied (h : Heap) (ts cs : List TaskRef) (h' : Heap) : Type 0 where
  pub same : map (read h') cs ≡ map (read h) ts
  pub fresh : All (Above h.next) cs
  pub grows : h.next ≤ h'.next
  pub keeps : Agree (Below h.next) h h'

pub copy_items-ItemsCopied :
    (ts : List TaskRef) (h : Heap)
    → All (Allocated h) ts
    → ItemsCopied h ts (copy_items ts h).0 (copy_items ts h).1
unfolding copy_items
copy_items-ItemsCopied [] h q = record {
  same = refl;
  fresh = tt;
  grows = omega arith;
  keeps = record { strings = λ a p. refl; conditions = λ a p. refl };
}
copy_items-ItemsCopied (t ∷ ts) h (q, qs) =
    let (c, h₁) = deep_copy t h in
    let e = deep_copy-Copy h t q in
    let rest = copy_items-ItemsCopied ts h₁ (
      All-map ts
        (λ u (k : Allocated h u). Addresses-map u (λ a (b : a < h.next). omega (arith, e.grows)) k)
        qs) in
    let (cs, h₂) = copy_items ts h₁ in
    record {
      same =
          ap₂ ◌∷◌ (read-Agree (Below h₁.next) h₁ h₂ c rest.keeps e.allocated ∙ e.same)
            (rest.same ∙ read_each-Agree (Below h.next) h h₁ ts e.keeps qs);
      fresh = (
        e.fresh,
        All-map cs
            (λ u (k : Above h₁.next u).
              Addresses-map u (λ a (b : h₁.next ≤ a). omega (arith, e.grows)) k)
            rest.fresh,
      );
      grows = omega (arith, e.grows, rest.grows);
      keeps = Agree-trans h.next h₁.next h h₁ h₂ e.grows e.keeps rest.keeps;
    }
