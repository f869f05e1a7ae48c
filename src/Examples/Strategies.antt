-- ===== src/Examples/Strategies.antt =====
-- The theorems about the strategies at concrete Tasks.
use simple_api_server.Prelude.{◌≡◌, ◌↔◌, refl, true, [], ◌∷◌, arith, str_eq, text}
use simple_api_server.Prelude.Int64.{pos, signed, ◌≤ℤ◌}
use simple_api_server.Kube.Outcome.{ok}
use simple_api_server.Api.{task}
use simple_api_server.Strategy.{prepare_for_update, spec_equal}
use simple_api_server.Strategy.SpecEqual.{SameSpec, spec_equal_iff}
use simple_api_server.StatusStrategy.{validate_status_update}
use simple_api_server.StatusStrategy.Observed.{validate_status_update_iff}
use simple_api_server.Examples.Fixture.{library}
use simple_api_server.Examples.Data.{old, new_image, accepted_image}

prepares : prepare_for_update (task new_image) (task old) ≡ ok (task accepted_image)
unfolding prepare_for_update spec_equal str_eq
prepares = refl

spec_equal_iff_example :
    (spec_equal new_image.spec old.spec ≡ true) ↔ SameSpec new_image.spec old.spec
spec_equal_iff_example = spec_equal_iff new_image.spec old.spec

validate_status_update_iff_example : (validate_status_update library old ≡ []) ↔ (
    (pos 0 ≤ℤ signed old.status.observed_generation)
    × (signed old.status.observed_generation ≤ℤ signed old.object_meta.generation)
    × (library.validate_conditions old.status.conditions (text "status" ∷ text "conditions" ∷ [])
        ≡ []))
validate_status_update_iff_example =
    validate_status_update_iff library old (omega arith) (omega arith)
