-- ===== src/StatusStrategy/Observed.antt =====
-- What validateStatusUpdate accepts.
use simple_api_server.Prelude.{ℕ, List, refl, ◌≡◌, ◌<◌, ◌^◌, ◌↔◌, [], ◌∷◌, ◌++◌, arith, text, false}
use simple_api_server.Prelude.Int64.{pos, signed, ◌≤ℤ◌, int64_lt, int64_lt_iff}
use simple_api_server.Api.{Task}
use simple_api_server.Rest.{Library}
use simple_api_server.StatusStrategy.{observed_generation_errors, validate_status_update}

module _ (og generation : ℕ) (ho : og < 2 ^ 64) (hg : generation < 2 ^ 64) where
  observed_generation_iff :
      (observed_generation_errors og generation ≡ [])
      ↔ ((pos 0 ≤ℤ signed og) × (signed og ≤ℤ signed generation))
  unfolding observed_generation_errors
  observed_generation_iff = (
    λ h.
        let a : int64_lt og 0 ≡ false = ground arith in
        let b : int64_lt generation og ≡ false = ground arith in
        ((int64_lt_iff og 0 ho (omega arith)).0 a, (int64_lt_iff generation og hg ho).0 b),
    λ (p, q). rw ((int64_lt_iff og 0 ho (omega arith)).1 p, (int64_lt_iff generation og hg ho).1 q),
  )

append-eq-nil {ℓ} : {A : Type ℓ} (xs ys : List A) → xs ++ ys ≡ [] → (xs ≡ []) × (ys ≡ [])
append-eq-nil [] ys h = (refl, h)
append-eq-nil (x ∷ xs) ys h = cc

-- validateStatusUpdate finds nothing wrong exactly if the observed generation, read as a signed
-- number, lies between 0 and the generation, and ValidateConditions accepts the conditions.
pub validate_status_update_iff :
    {Ctx : Type 0} (lib : Library Ctx) (t : Task)
    → t.status.observed_generation < 2 ^ 64
    → t.object_meta.generation < 2 ^ 64
    → (validate_status_update lib t ≡ []) ↔ (
        (pos 0 ≤ℤ signed t.status.observed_generation)
        × (signed t.status.observed_generation ≤ℤ signed t.object_meta.generation)
        × (lib.validate_conditions t.status.conditions (text "status" ∷ text "conditions" ∷ [])
            ≡ []))
unfolding validate_status_update
validate_status_update_iff lib t ho hg =
    let path = text "status" ∷ text "conditions" ∷ [] in
    let og = t.status.observed_generation in
    let range = observed_generation_iff og t.object_meta.generation ho hg in
    (
      λ h.
          let (p, q) = append-eq-nil _ (lib.validate_conditions t.status.conditions path) h in
          let (low, high) = range.0 p in (low, high, q),
      λ (low, high, q). rw (range.1 (low, high)) q,
    )
