-- ===== src/Api.antt =====
-- pkg/apis/tasks/v1alpha1: the Task types, their names, and the objects that the registry handles.
use simple_api_server.Prelude.{GoString, text, ℕ, List, Option, none, some}
use simple_api_server.Kube.Meta.{Slice, GroupResource, ObjectMeta, TypeMeta, Condition}

pub record TaskSpec : Type 0 where
  pub image : GoString
  pub command : Slice GoString
  pub args : Slice GoString

pub record TaskStatus : Type 0 where
  pub phase : GoString
  pub conditions : Slice Condition
  pub observed_generation : ℕ  -- int64

pub record Task : Type 0 where
  pub type_meta : TypeMeta
  pub object_meta : ObjectMeta
  pub spec : TaskSpec
  pub status : TaskStatus

pub record TaskList : Type 0 where
  pub type_meta : TypeMeta
  pub resource_version : GoString
  pub items : List Task

-- The zero values `TaskStatus{}` and `TaskList{}`.
abbrev pub empty_status : TaskStatus
empty_status = record { phase = List.[]; conditions = Slice.nil; observed_generation = 0 }

abbrev pub empty_type_meta : TypeMeta
empty_type_meta = record { kind = List.[]; api_version = List.[] }

-- The zero value `Task{}`, the decode target of `New`.
abbrev pub empty_task : Task
empty_task = record {
  type_meta = empty_type_meta;
  object_meta = record {
    name = List.[];
    namespace = List.[];
    uid = List.[];
    resource_version = List.[];
    generation = 0;
    creation_timestamp = 0;
    labels = List.[];
  };
  spec = record { image = List.[]; command = Slice.nil; args = Slice.nil };
  status = empty_status;
}

abbrev pub group_name : GoString
group_name = text "tasks.example.com"

pub record GroupVersion : Type 0 where
  pub group : GoString
  pub version : GoString

abbrev pub scheme_group_version : GroupVersion
scheme_group_version = record { group = group_name; version = text "v1alpha1" }

abbrev pub resource : GoString → GroupResource
resource name = record { group = scheme_group_version.group; resource = name }

-- runtime.Object: the two types of this package, and objects of other packages, of which the
-- program sees only the metadata that `meta.Accessor` finds, if any.
pub data Object : Type 0 where
  task : Task → Object
  task_list : TaskList → Object
  other_object : Option ObjectMeta → Object

-- meta.Accessor: Task embeds ObjectMeta and so has the accessors; TaskList embeds ListMeta and has
-- not. `none` is the error.
abbrev pub accessor : Object → Option ObjectMeta
accessor (task t) = some t.object_meta
accessor (task_list l) = none
accessor (other_object m) = m

-- A write through the accessor.
abbrev pub set_object_meta : ObjectMeta → Object → Object
set_object_meta m (task t) = task (record t { object_meta = m })
set_object_meta m (task_list l) = task_list l
set_object_meta m (other_object none) = other_object none
set_object_meta m (other_object (some _)) = other_object (some m)
