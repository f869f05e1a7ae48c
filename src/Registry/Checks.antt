-- ===== src/Registry/Checks.antt =====
-- The functions of pkg/registry/tasks/task/storage.go and helpers.go that do not call the store.
use simple_api_server.Prelude.{
  ℕ, ltb, Bool, false, not, ◌&&◌, List, [], ◌∷◌, ◌++◌, Option, none, some, GoString, str_eq,
  if◌then◌else◌,
}
use simple_api_server.Prelude.Decimal.{parse_uint, format_uint}
use simple_api_server.Kube.{
  GroupResource, ObjectMeta, Preconditions, bad_request, conflict, internal_error, name_required,
  namespace_required, resource_version_required, object_modified, uid_mismatch,
  resource_version_mismatch, not_a_task, no_object_meta,
}
use simple_api_server.Kube.Outcome.{Outcome, ok, err, ◌>>=◌, check_error}
use simple_api_server.Api.{Task, Object, task, accessor}
use simple_api_server.Rest.{Library, UpdateStrategy, ValidateObjectFunc, ValidateObjectUpdateFunc}
use simple_api_server.Store.{Key}

-- parseRVOrZero
unfoldable pub parse_rv_or_zero : GoString → ℕ
parse_rv_or_zero s = elim (parse_uint s) [ none ↦ 0 | some v ↦ v ]

abbrev pub format_rv : ℕ → GoString
format_rv rv = format_uint rv

-- meta.Accessor, with the error wrapped by NewInternalError.
abbrev pub require_meta : Object → Outcome ObjectMeta
require_meta obj = elim (accessor obj) [
  | none ↦ err (internal_error no_object_meta)
  | some m ↦ ok m
]

module _ {Ctx : Type 0} (lib : Library Ctx) where
  -- requestNamespace
  abbrev pub request_namespace : Ctx → GoString × Bool
  request_namespace ctx = lib.namespace_from ctx

  -- namespaceFromContext
  abbrev pub namespace_from_context : Ctx → Bool → GoString
  namespace_from_context ctx _ = (request_namespace ctx).0

  -- keyFromContext
  unfoldable pub key_from_context : Ctx → GoString → Bool → GroupResource → Outcome Key
  key_from_context ctx name namespaced gr =
      let ns = namespace_from_context ctx namespaced in
      if str_eq name []
      then err (bad_request name_required)
      else if namespaced && str_eq ns []
      then err (bad_request (namespace_required gr))
      else ok (record { namespace = ns; name = name })

-- checkResourceVersion, after its two accessors.
compare_resource_versions : ObjectMeta → ObjectMeta → Bool → GroupResource → Outcome (Unit {0})
compare_resource_versions old_acc new_acc unconditional gr =
    if str_eq new_acc.resource_version []
    then if unconditional then ok tt else err (conflict gr new_acc.name resource_version_required)
    else if not (str_eq new_acc.resource_version old_acc.resource_version)
    then err (conflict gr new_acc.name object_modified)
    else ok tt

unfoldable pub check_resource_version :
    {Ctx : Type 0} → Object → Object → UpdateStrategy Ctx → GroupResource → Outcome (Unit {0})
unfolding compare_resource_versions
check_resource_version existing updated strategy gr = do
  old_acc ← require_meta existing
  new_acc ← require_meta updated
  compare_resource_versions old_acc new_acc strategy.allow_unconditional_update gr

-- `pre.X != nil && *pre.X != current`
unfoldable pub mismatch : Option GoString → GoString → Option GoString
mismatch none current = none
mismatch (some wanted) current = if str_eq wanted current then none else some wanted

unfoldable pub compare_preconditions :
    ObjectMeta → Preconditions → GroupResource → GoString → Outcome (Unit {0})
compare_preconditions acc pre gr name = elim (mismatch pre.uid acc.uid) [
  | some wanted ↦ err (conflict gr name (uid_mismatch wanted acc.uid))
  | none ↦ elim (mismatch pre.resource_version acc.resource_version) [
    | some wanted ↦ err (conflict gr name (resource_version_mismatch wanted acc.resource_version))
    | none ↦ ok tt
  ]
]

unfoldable pub check_preconditions :
    Object → Option Preconditions → GroupResource → GoString → Outcome (Unit {0})
unfolding compare_preconditions mismatch
check_preconditions existing none gr name = ok tt
check_preconditions existing (some pre) gr name = do
  acc ← require_meta existing
  compare_preconditions acc pre gr name

-- `if createValidation != nil { … }` and the like.
unfoldable pub validate_object :
    {Ctx : Type 0} → ValidateObjectFunc Ctx → Ctx → Object → Outcome (Unit {0})
validate_object none ctx obj = ok tt
validate_object (some f) ctx obj = check_error (f ctx obj)

unfoldable pub validate_object_update :
    {Ctx : Type 0} → ValidateObjectUpdateFunc Ctx → Ctx → Object → Object → Outcome (Unit {0})
validate_object_update none ctx obj old = ok tt
validate_object_update (some f) ctx obj old = check_error (f ctx obj old)

-- labels.Selector: whether it matches a set of labels.
abbrev pub Selector : Type 0
Selector = List (GoString × GoString) → Bool

-- fields.Selector: the program asks only whether it is empty.
pub record FieldSelector : Type 0 where
  pub empty : Bool

pub record ListOptions : Type 0 where
  pub field_selector : Option FieldSelector
  pub label_selector : Option Selector

-- `fieldSelector != nil && !fieldSelector.Empty()`
abbrev pub has_field_selector : Option ListOptions → Bool
has_field_selector none = false
has_field_selector (some o) = elim o.field_selector [ none ↦ false | some f ↦ not f.empty ]

abbrev pub selector_of : Selector → Option ListOptions → Selector
selector_of everything none = everything
selector_of everything (some o) = elim o.label_selector [ none ↦ everything | some s ↦ s ]

-- The loop of List over the objects of the store; `continue` leaves items and maxRV as they are.
unfoldable pub list_loop : Selector → List Object → List Task → ℕ → Outcome (List Task × ℕ)
list_loop selector [] items max_rv = ok (items, max_rv)
list_loop selector (task t ∷ raw) items max_rv =
    let matches = selector t.object_meta.labels in
    let rv = parse_rv_or_zero t.object_meta.resource_version in
    list_loop selector raw (if matches then items ++ t ∷ [] else items)
      (if matches && ltb max_rv rv then rv else max_rv)
list_loop selector (_ ∷ raw) items max_rv = err (internal_error not_a_task)
