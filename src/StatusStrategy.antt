-- ===== src/StatusStrategy.antt =====
-- StatusStrategy of pkg/registry/tasks/task/strategy.go. It embeds Strategy: what it does not
-- override is that of `Strategy`.
pub mod Observed
use simple_api_server.Prelude.{ℕ, [], ◌∷◌, ◌++◌, List, text, if◌then◌else◌}
use simple_api_server.Prelude.Int64.{int64_lt}
use simple_api_server.Kube.{FieldPath, FieldError, negative, exceeds_generation}
use simple_api_server.Kube.Outcome.{Outcome, ok, panic}
use simple_api_server.Api.{Task, Object, task}
use simple_api_server.Rest.{UpdateStrategy, Library}
use simple_api_server.Strategy

unfoldable pub prepare_for_update : Object → Object → Outcome Object
prepare_for_update (task t) (task old) = ok (
    task (record t {
      spec = old.spec;
      object_meta = record t.object_meta { generation = old.object_meta.generation };
    }))
prepare_for_update _ _ = panic

-- The `switch` of validateStatusUpdate on observedGeneration.
unfoldable pub observed_generation_errors : ℕ → ℕ → List FieldError
observed_generation_errors og generation =
    let path : FieldPath = text "status" ∷ text "observedGeneration" ∷ [] in
    if int64_lt og 0
    then negative path og ∷ []
    else if int64_lt generation og
    then exceeds_generation path og generation ∷ []
    else []

module _ {Ctx : Type 0} (lib : Library Ctx) where
  unfoldable pub validate_status_update : Task → List FieldError
  unfolding observed_generation_errors
  validate_status_update t =
      observed_generation_errors t.status.observed_generation t.object_meta.generation
      ++ lib.validate_conditions t.status.conditions (text "status" ∷ text "conditions" ∷ [])

  -- The old object is not looked at.
  unfoldable pub validate_update : Object → Object → Outcome (List FieldError)
  validate_update (task t) _ = ok (validate_status_update t)
  validate_update _ _ = panic

  abbrev pub update_strategy : UpdateStrategy Ctx
  update_strategy = record {
    namespace_scoped = Strategy.namespace_scoped;
    allow_create_on_update = Strategy.allow_create_on_update;
    allow_unconditional_update = Strategy.allow_unconditional_update;
    prepare_for_update = λ _. prepare_for_update;
    validate_update = λ _. validate_update;
    canonicalize = Strategy.canonicalize;
    warnings_on_update = λ _ _ _. [];
  }
