-- ===== src/Memory/Values.antt =====
-- A map whose values are changed by a function.
use simple_api_server.Prelude.{◌≡◌, refl, List, [], ◌∷◌, arith}
use mathlib.Core.Option
use simple_api_server.Store.{Key, lookup, put, remove}

module _ {ℓ} {V : Type ℓ} {W : Type ℓ} (f : V → W) where
  abbrev pub map_values : List (Key × V) → List (Key × W)
  map_values [] = []
  map_values ((k, v) ∷ m) = (k, f v) ∷ map_values m

  pub lookup-map_values :
      (k : Key) (m : List (Key × V)) → lookup k (map_values m) ≡ Option.map f (lookup k m)
  unfolding lookup
  lookup-map_values k [] = refl
  lookup-map_values k ((j, v) ∷ m) = ground (arith, lookup-map_values k m)

  pub map_values-put :
      (k : Key) (v : V) (m : List (Key × V)) → map_values (put k v m) ≡ put k (f v) (map_values m)
  unfolding put
  map_values-put k v [] = refl
  map_values-put k v ((j, w) ∷ m) = ground (arith, map_values-put k v m)

  pub map_values-remove :
      (k : Key) (m : List (Key × V)) → map_values (remove k m) ≡ remove k (map_values m)
  unfolding remove
  map_values-remove k [] = refl
  map_values-remove k ((j, w) ∷ m) = ground (arith, map_values-remove k m)
