-- ===== src/DeepCopy/Isolation.antt =====
-- A deep copy is the same Task, and no write through the one is seen through the other.
use mathlib.Core.List.{Memᴰ}
use simple_api_server.Prelude.{
  ℕ, ◌≤◌, ◌<◌, ◌≡◌, refl, sym, subst, ◌∙◌, List, [], ◌∷◌, GoString, arith,
}
use simple_api_server.Kube.{Condition}
use simple_api_server.DeepCopy.{
  Heap, TaskRef, read, set_at, write_strings, write_conditions, deep_copy,
}
use simple_api_server.DeepCopy.Reading.{Allocated, Agree, read-Agree, Below}
use simple_api_server.DeepCopy.Copying.{deep_copy-Copy}

pub elsewhere {ℓ} : {A : Type ℓ} (b a : ℕ) (x : A) (f : ℕ → A) → (b ≡ a → ⊥) → set_at b x f a ≡ f a
elsewhere b a x f differ = ground (arith, differ)

-- A write into an array of the heap.
pub data Write : Type 0 where
  to_strings : ℕ → List GoString → Write
  to_conditions : ℕ → List Condition → Write

abbrev pub target : Write → ℕ
target (to_strings a _) = a
target (to_conditions a _) = a

unfoldable pub write_all : List Write → Heap → Heap
write_all [] h = h
write_all (to_strings a x ∷ ws) h = write_all ws (write_strings a x h)
write_all (to_conditions a x ∷ ws) h = write_all ws (write_conditions a x h)

pub write_all-Agree :
    (p : ℕ → Type 0) (ws : List Write) (h : Heap)
    → ((w : Write) → Memᴰ w ws → p (target w) → ⊥)
    → Agree p h (write_all ws h)
unfolding write_all
write_all-Agree p [] h off = record { strings = λ a q. refl; conditions = λ a q. refl }
write_all-Agree p (to_strings b x ∷ ws) h off =
    let rest = write_all-Agree p ws (write_strings b x h) (λ w m. off w (Memᴰ.tail m)) in
    record {
      strings = λ a q.
          rest.strings a q
          ∙ elsewhere b a x h.strings
              (λ e. off (to_strings b x) (Memᴰ.head refl) (subst p (sym e) q));
      conditions = rest.conditions;
    }
write_all-Agree p (to_conditions b x ∷ ws) h off =
    let rest = write_all-Agree p ws (write_conditions b x h) (λ w m. off w (Memᴰ.tail m)) in
    record {
      strings = rest.strings;
      conditions = λ a q.
          rest.conditions a q
          ∙ elsewhere b a x h.conditions
              (λ e. off (to_conditions b x) (Memᴰ.head refl) (subst p (sym e) q));
    }

module _ (h : Heap) (t : TaskRef) (allocated : Allocated h t) (writes : List Write) where
  -- A deep copy of a Task whose slices are allocated is the same Task, and stays it whatever is then
  -- written into arrays that were there before the copy, those of the original among them.
  pub copy_isolated :
      ((w : Write) → Memᴰ w writes → target w < h.next)
      → read (write_all writes (deep_copy t h).1) (deep_copy t h).0 ≡ read h t
  copy_isolated old =
      let c = deep_copy-Copy h t allocated in
      read-Agree (λ a. h.next ≤ a) (deep_copy t h).1 _ (deep_copy t h).0
        (write_all-Agree (λ a. h.next ≤ a) writes (deep_copy t h).1
          (λ w m q. omega (arith, old w m)))
        c.fresh
      ∙ c.same

  -- After a deep copy, the original stays as it was whatever is then written into arrays that the
  -- copy has made, or that are made later.
  pub original_isolated :
      ((w : Write) → Memᴰ w writes → h.next ≤ target w)
      → read (write_all writes (deep_copy t h).1) t ≡ read h t
  original_isolated new =
      let c = deep_copy-Copy h t allocated in
      read-Agree (Below h.next) (deep_copy t h).1 _ t
        (write_all-Agree (Below h.next) writes (deep_copy t h).1 (λ w m q. omega (arith, new w m)))
        allocated
      ∙ read-Agree (Below h.next) h (deep_copy t h).1 t c.keeps allocated
