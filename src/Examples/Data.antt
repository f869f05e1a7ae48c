-- ===== src/Examples/Data.antt =====
-- Tasks, stores and requests of the tests.
use simple_api_server.Prelude.{ℕ, none, [], ◌∷◌, GoString, text}
use simple_api_server.Kube.{Slice, GroupResource, ObjectMeta}
use simple_api_server.Kube.Outcome.{ok}
use simple_api_server.Api.{
  Task, TaskSpec, TaskStatus, task, empty_type_meta, empty_status, resource,
}
use simple_api_server.Rest.{UpdatedObjectInfo}
use simple_api_server.Store.{Key, Store}
use simple_api_server.Handler.{Order}
use simple_api_server.Examples.Fixture.{Ctx}

abbrev pub tasks : GroupResource
tasks = resource (text "tasks")

abbrev pub team : GoString
team = text "team"

abbrev pub job : GoString
job = text "job"

abbrev pub job_key : Key
job_key = record { namespace = team; name = job }

abbrev pub map_order : Order
map_order m = m

-- The metadata of a Task at a version and a generation.
abbrev pub meta_at : GoString → ℕ → ObjectMeta
meta_at version generation = record {
  name = job;
  namespace = team;
  uid = text "7f3a";
  resource_version = version;
  generation = generation;
  creation_timestamp = 0;
  labels = [];
}

abbrev pub runs : GoString → TaskSpec
runs image = record { image = image; command = Slice.nil; args = Slice.slice (text "-v" ∷ []) }

abbrev pub running : TaskStatus
running = record { phase = text "Running"; conditions = Slice.nil; observed_generation = 1 }

abbrev pub task_with : ObjectMeta → TaskSpec → TaskStatus → Task
task_with m spec status = record {
  type_meta = empty_type_meta;
  object_meta = m;
  spec = spec;
  status = status;
}

-- What the store holds: version 1, generation 1.
abbrev pub old : Task
old = task_with (meta_at (text "1") 1) (runs (text "busybox")) running

abbrev pub one_task : Store
one_task = record { items = (job_key, task old) ∷ []; rv = 1; gr = tasks }

abbrev pub no_tasks : Store
no_tasks = record { items = []; rv = 1; gr = tasks }

-- A client that puts a Task, with no precondition.
abbrev pub puts : Task → UpdatedObjectInfo Ctx
puts t = record { preconditions = none; updated_object = λ _ _. ok (task t) }

-- A new image, and with it a status that is to be ignored.
abbrev pub new_image : Task
new_image = task_with (meta_at (text "1") 1) (runs (text "alpine")) empty_status

-- What an update to it stores.
abbrev pub updated : Task
updated = task_with (meta_at (text "2") 2) (runs (text "alpine")) running

abbrev pub updated_store : Store
updated_store = record { items = (job_key, task updated) ∷ []; rv = 2; gr = tasks }

-- Another image, from the same read.
abbrev pub other_image : Task
other_image = task_with (meta_at (text "1") 1) (runs (text "debian")) empty_status

-- A new status, and with it a spec that is to be ignored.
abbrev pub done_status : TaskStatus
done_status = record { phase = text "Succeeded"; conditions = Slice.nil; observed_generation = 1 }

abbrev pub new_status : Task
new_status = task_with (meta_at (text "1") 1) (runs (text "alpine")) done_status

abbrev pub status_updated : Task
status_updated = task_with (meta_at (text "2") 1) (runs (text "busybox")) done_status

abbrev pub status_store : Store
status_store = record { items = (job_key, task status_updated) ∷ []; rv = 2; gr = tasks }

-- What updateOnStore is about to write, before the store stamps its version.
abbrev pub accepted_image : Task
accepted_image = task_with (meta_at (text "1") 2) (runs (text "alpine")) running

abbrev pub accepted_other : Task
accepted_other = task_with (meta_at (text "1") 2) (runs (text "debian")) running

-- What Create stores of the new image, and the store afterwards.
abbrev pub created_task : Task
created_task = task_with (meta_at (text "2") 1) (runs (text "alpine")) empty_status

abbrev pub created_store : Store
created_store = record { items = (job_key, task created_task) ∷ []; rv = 2; gr = tasks }

-- After a Delete.
abbrev pub emptied_store : Store
emptied_store = record { items = []; rv = 2; gr = tasks }
