-- ===== src/Examples/ReadBack.antt =====
-- The theorems about a Get after a write at concrete requests.
use simple_api_server.Prelude.{refl, inl, none, true, false}
use simple_api_server.Kube.{not_found}
use simple_api_server.Kube.Outcome.{ok, err}
use simple_api_server.Api.{task}
use simple_api_server.Registry.ReadBack.{Answered, get-update, get-create, get-delete}
use simple_api_server.Examples.Fixture.{library, library-LibraryLaws}
use simple_api_server.Examples.Data.{
  tasks, team, job, job_key, map_order, old, one_task, no_tasks, puts, new_image, updated,
  updated_store, created_task, created_store, emptied_store,
}
use simple_api_server.Examples.Stores.{one_task-IsValid}
use simple_api_server.Examples.Updates.{addressed, found, update_runs}
use simple_api_server.Examples.Requests.{create_runs, delete_runs, if_unchanged}

get-update_example : Answered library map_order tasks team job (ok (task updated)) updated_store
get-update_example =
    get-update library map_order tasks team job job_key addressed (puts new_image) none none false
      false one_task updated_store (task old) (task updated) found (inl update_runs)

get-create_example :
    Answered library map_order tasks team job (ok (task created_task)) created_store
get-create_example =
    get-create library map_order tasks team job job_key addressed library-LibraryLaws none new_image
      (task created_task) created_task.object_meta no_tasks created_store create_runs refl refl

get-delete_example :
    Answered library map_order tasks team job (err (not_found tasks job)) emptied_store
get-delete_example =
    get-delete library map_order tasks team job job_key addressed none if_unchanged one_task
      emptied_store (task old) true old.object_meta one_task-IsValid.unique delete_runs refl
