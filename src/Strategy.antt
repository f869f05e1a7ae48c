-- ===== src/Strategy.antt =====
-- Strategy of pkg/registry/tasks/task/strategy.go, and the validation that it shares with
-- StatusStrategy. The context that the methods ignore is left out here; `create_strategy` and
-- `update_strategy` put the methods together as the interfaces ask.
pub mod SpecEqual
pub mod Generation
use simple_api_server.Prelude.{
  ℕ, Bool, true, false, ◌&&◌, List, [], ◌∷◌, ◌++◌, GoString, str_eq, text, if◌then◌else◌, ◌==◌,
  length,
}
use simple_api_server.Prelude.Int64.{int64_suc}
use simple_api_server.Kube.{Slice, elements, ObjectMeta, FieldPath, FieldError, required}
use simple_api_server.Kube.Outcome.{Outcome, ok, panic}
use simple_api_server.Api.{Task, TaskSpec, Object, task, empty_status}
use simple_api_server.Rest.{CreateStrategy, UpdateStrategy, Library}

abbrev pub namespace_scoped : Bool
namespace_scoped = true

abbrev pub allow_create_on_update : Bool
allow_create_on_update = false

abbrev pub allow_unconditional_update : Bool
allow_unconditional_update = false

abbrev pub canonicalize : Object → Object
canonicalize obj = obj

-- `obj.(*v1alpha1.Task)` panics on another type.
unfoldable pub prepare_for_create : Object → Outcome Object
prepare_for_create (task t) = ok (
    task
      (record t { status = empty_status; object_meta = record t.object_meta { generation = 1 } }))
prepare_for_create _ = panic

-- The loop of stringSliceEqual; the lengths are equal, so the last clause is not reached.
slices_equal_from : List GoString → List GoString → Bool
slices_equal_from [] b = true
slices_equal_from (x ∷ a) (y ∷ b) = if str_eq x y then slices_equal_from a b else false
slices_equal_from (x ∷ a) [] = false

unfoldable pub string_slice_equal : Slice GoString → Slice GoString → Bool
unfolding slices_equal_from
string_slice_equal a b =
    if length (elements a) == length (elements b)
    then slices_equal_from (elements a) (elements b)
    else false

unfoldable pub spec_equal : TaskSpec → TaskSpec → Bool
spec_equal a b =
    str_eq a.image b.image
    && string_slice_equal a.command b.command
    && string_slice_equal a.args b.args

unfoldable pub prepare_for_update : Object → Object → Outcome Object
prepare_for_update (task t) (task old) =
    let generation =
      if spec_equal t.spec old.spec
      then old.object_meta.generation
      else int64_suc old.object_meta.generation in
    ok (
      task (record t {
        status = old.status;
        object_meta = record t.object_meta { generation = generation };
      }))
prepare_for_update _ _ = panic

-- validateImmutableFields
abbrev pub validate_immutable_fields : Task → Task → List FieldError
validate_immutable_fields _ _ = []

module _ {Ctx : Type 0} (lib : Library Ctx) where
  unfoldable pub validate_task : Task → List FieldError
  validate_task t =
      let errs = lib.validate_object_meta t.object_meta true (text "metadata" ∷ []) in
      if str_eq t.spec.image []
      then errs ++ required (text "spec" ∷ text "image" ∷ []) ∷ []
      else errs

  unfoldable pub validate : Object → Outcome (List FieldError)
  validate (task t) = ok (validate_task t)
  validate _ = panic

  unfoldable pub validate_update : Object → Object → Outcome (List FieldError)
  validate_update (task t) (task old) = ok (validate_task t ++ validate_immutable_fields t old)
  validate_update _ _ = panic

  abbrev pub create_strategy : CreateStrategy Ctx
  create_strategy = record {
    namespace_scoped = namespace_scoped;
    prepare_for_create = λ _. prepare_for_create;
    validate = λ _. validate;
    canonicalize = canonicalize;
    warnings_on_create = λ _ _. [];
  }

  abbrev pub update_strategy : UpdateStrategy Ctx
  update_strategy = record {
    namespace_scoped = namespace_scoped;
    allow_create_on_update = allow_create_on_update;
    allow_unconditional_update = allow_unconditional_update;
    prepare_for_update = λ _. prepare_for_update;
    validate_update = λ _. validate_update;
    canonicalize = canonicalize;
    warnings_on_update = λ _ _ _. [];
  }
