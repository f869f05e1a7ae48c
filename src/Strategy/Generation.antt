-- ===== src/Strategy/Generation.antt =====
-- What PrepareForUpdate does to a Task: the generation counts the changes of the spec.
use simple_api_server.Prelude.{◌+◌, ◌%◌, ◌^◌, ◌<◌, ◌≡◌, ◌↔◌, inl, inr, Bool-cases, true, arith}
use simple_api_server.Kube.Outcome.{ok}
use simple_api_server.Api.{Task, task}
use simple_api_server.Strategy.{spec_equal, prepare_for_update}
use simple_api_server.Strategy.SpecEqual.{SameSpec, spec_equal_iff}

-- Preparing a Task over an old one keeps the new spec and the old status. The generation is the old
-- one exactly if the two specs are the same up to nil against empty; otherwise it is the successor
-- of the old one, in 64 bits. A generation below 2 ^ 64 is assumed.
pub prepare_for_update_lem :
    (t old t' : Task)
    → prepare_for_update (task t) (task old) ≡ ok (task t')
    → old.object_meta.generation < 2 ^ 64
    → (t'.spec ≡ t.spec)
      × (t'.status ≡ old.status)
      × ((t'.object_meta.generation ≡ old.object_meta.generation) ↔ SameSpec t.spec old.spec)
      × ((SameSpec t.spec old.spec → ⊥)
          → t'.object_meta.generation ≡ (old.object_meta.generation + 1) % 2 ^ 64)
unfolding prepare_for_update
prepare_for_update_lem t old t' h small = elim (Bool-cases (spec_equal t.spec old.spec)) [
  | inl e ↦
      let same = (spec_equal_iff t.spec old.spec).0 e in
      (ground arith, ground arith, (λ _. same, λ _. ground arith), λ differ. absurd (differ same))
  | inr e ↦
      let bumped : t'.object_meta.generation ≡ (old.object_meta.generation + 1) % 2 ^ 64 =
        ground arith in
      let equal : SameSpec t.spec old.spec → spec_equal t.spec old.spec ≡ true =
        (spec_equal_iff t.spec old.spec).1 in
      (
        ground arith,
        ground arith,
        (λ g. absurd (omega arith), λ same. cc (equal same)),
        λ _. bumped,
      )
]
