-- ===== src/Memory/Stored.antt =====
-- The pointers in the map of the store stay private through its own changes of the map.
use simple_api_server.Prelude.{ℕ, ◌≡◌, inl, inr, subst, sym, some, List, [], ◌∷◌, Bool-cases}
use mathlib.Core.List.{Permᴰ}
use simple_api_server.Store.{Key, key_eq, lookup, put, remove}
use simple_api_server.Memory.{Memory}
use simple_api_server.Memory.Clients.{Known}
use simple_api_server.Memory.Privacy.{IsPrivate, Stored}

module _ (m : Memory) (k : Known) where
  pub lookup-Stored :
      (key : Key) (p : ℕ) (items : List (Key × ℕ))
      → Stored m k items
      → lookup key items ≡ some p
      → IsPrivate m k p
  unfolding lookup
  lookup-Stored key p [] h e = cc
  lookup-Stored key p ((j, q) ∷ items) (h, hs) e = elim (Bool-cases (key_eq j key)) [
    | inl f ↦ let same : q ≡ p = cc (rw f at e) in subst (IsPrivate m k) same h
    | inr f ↦ lookup-Stored key p items hs (rw f at e)
  ]

  pub put-Stored :
      (key : Key) (p : ℕ) (items : List (Key × ℕ))
      → IsPrivate m k p
      → Stored m k items
      → Stored m k (put key p items)
  unfolding put
  put-Stored key p [] h hs = (h, tt)
  put-Stored key p ((j, q) ∷ items) h (g, hs) = elim (Bool-cases (key_eq j key)) [
    | inl e ↦ rw e (h, hs)
    | inr e ↦ rw e (g, put-Stored key p items h hs)
  ]

  pub remove-Stored :
      (key : Key) (items : List (Key × ℕ)) → Stored m k items → Stored m k (remove key items)
  unfolding remove
  remove-Stored key [] hs = tt
  remove-Stored key ((j, q) ∷ items) (g, hs) = elim (Bool-cases (key_eq j key)) [
    | inl e ↦ rw e hs
    | inr e ↦ rw e (g, remove-Stored key items hs)
  ]

  pub Stored-Perm :
      {items visited : List (Key × ℕ)} → Permᴰ visited items → Stored m k items → Stored m k visited
  Stored-Perm Permᴰ.nil h = tt
  Stored-Perm (Permᴰ.cons e d) (h, hs) =
      (subst (λ (x : Key × ℕ). IsPrivate m k x.1) (sym e) h, Stored-Perm d hs)
  Stored-Perm (Permᴰ.swap e f) (h, (g, hs)) = (
    subst (λ (x : Key × ℕ). IsPrivate m k x.1) (sym e) g,
    (subst (λ (x : Key × ℕ). IsPrivate m k x.1) (sym f) h, hs),
  )
  Stored-Perm (Permᴰ.trans d d') h = Stored-Perm d (Stored-Perm d' h)
