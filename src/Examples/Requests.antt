-- ===== src/Examples/Requests.antt =====
-- The theorems about racing updates, creation, deletion and lists at concrete requests.
use mathlib.Core.List.Permᴰ
use mathlib.Core.List.{Memᴰ}
use simple_api_server.Prelude.{
  ℕ, ◌≤◌, ◌≡◌, ◌≢◌, ◌↔◌, ◌⊎◌, refl, sym, none, some, true, false, Bool, [], ◌∷◌, List, arith,
  str_eq, some-injective, Bool-cases, inl, inr,
}
use simple_api_server.Kube.{Preconditions, not_found}
use simple_api_server.Kube.Outcome.{ok, err}
use simple_api_server.Api.{Task, task}
use simple_api_server.Strategy
use simple_api_server.Store
use simple_api_server.Store.{Key, Store, lookup, key_eq}
use simple_api_server.Store.Listing.{InNamespace}
use simple_api_server.Store.Calls.{perform}
use simple_api_server.Handler.{done, run}
use simple_api_server.Handler.Interleaving.{interleave}
use simple_api_server.Registry
use simple_api_server.Registry.Checks.{parse_rv_or_zero, selector_of, ListOptions}
use simple_api_server.Registry.Accept.{accept_update, DeleteOptions, object_key}
use simple_api_server.Registry.Race.{pair, stamped, lost_update}
use simple_api_server.Registry.Create.{NewTask, create_lem}
use simple_api_server.Registry.Missing.{update_missing, update_status-creates}
use simple_api_server.Registry.Delete.{Meets, delete_lem}
use simple_api_server.Registry.ListTasks.Answer.{OnlyTasks, list_of, list_lem}
use simple_api_server.Examples.Fixture.{library, library-LibraryLaws}
use simple_api_server.Examples.Data.{
  tasks, team, job, job_key, map_order, old, one_task, no_tasks, puts, new_image, other_image,
  new_status, accepted_image, accepted_other, created_task, created_store, emptied_store,
}
use simple_api_server.Examples.Stores.{one_task-IsValid}
use simple_api_server.Examples.Updates.{addressed, found}

pub accepts_image :
    accept_update library team job
      (puts new_image)
      none
      (Strategy.update_strategy library)
      tasks
      (task old)
    ≡ ok (task accepted_image)
unfolding accept_update library simple_api_server.Registry.Checks.check_preconditions
    simple_api_server.Registry.Checks.check_resource_version str_eq Strategy.prepare_for_update
    Strategy.validate_update Strategy.validate_task
    simple_api_server.Registry.Checks.validate_object_update Strategy.spec_equal
accepts_image = refl

accepts_other :
    accept_update library team job
      (puts other_image)
      none
      (Strategy.update_strategy library)
      tasks
      (task old)
    ≡ ok (task accepted_other)
unfolding accept_update library simple_api_server.Registry.Checks.check_preconditions
    simple_api_server.Registry.Checks.check_resource_version str_eq Strategy.prepare_for_update
    Strategy.validate_update Strategy.validate_task
    simple_api_server.Registry.Checks.validate_object_update Strategy.spec_equal
accepts_other = refl

lost_update_example :
    let end = interleave map_order (0 ∷ 1 ∷ 0 ∷ 1 ∷ []) (
      pair map_order one_task
        (Registry.update library tasks team job (puts new_image) none none false)
        (Registry.update library tasks team job (puts other_image) none none false)) in
    (end.threads 0 ≡ done (ok (stamped accepted_image.object_meta 2 (task accepted_image), false)))
    × (end.threads 1
        ≡ done (ok (stamped accepted_other.object_meta 3 (task accepted_other), false)))
    × (lookup job_key end.store.items
        ≡ some (stamped accepted_other.object_meta 3 (task accepted_other)))
    × (end.store.rv ≡ 3)
lost_update_example =
    lost_update library map_order tasks team team job (puts new_image) (puts other_image) none none
      none none false false job_key one_task (task old) (task accepted_image) (task accepted_other)
      accepted_image.object_meta accepted_other.object_meta addressed addressed found (omega arith)
      accepts_image accepts_other refl refl

pub create_runs :
    run map_order (Registry.create library tasks team (task new_image) none) no_tasks
    ≡ (ok (task created_task), created_store)
unfolding Registry.create run library simple_api_server.Registry.Accept.accept_create
    Strategy.prepare_for_create Strategy.validate Strategy.validate_task str_eq
    simple_api_server.Registry.Checks.validate_object perform lookup
    simple_api_server.Prelude.Decimal.format_uint Store.put
create_runs = refl

create_lem_example :
    (stored : Task) × NewTask library team new_image stored
    × (task created_task ≡ task stored)
    × (lookup (object_key (task created_task)) no_tasks.items ≡ none)
    × (lookup (object_key (task created_task)) created_store.items ≡ some (task created_task))
    × ((j : Key)
        → object_key (task created_task) ≢ j
        → lookup j created_store.items ≡ lookup j no_tasks.items)
create_lem_example =
    create_lem library map_order tasks team none library-LibraryLaws new_image (task created_task)
      no_tasks created_store create_runs

pub not_there : lookup job_key no_tasks.items ≡ none
unfolding lookup
not_there = refl

update_missing_example :
    (run map_order
        (Registry.update library tasks team job (puts new_status) none none false)
        no_tasks
      ≡ (err (not_found tasks job), no_tasks))
    × (run map_order
          (Registry.update_status library tasks team job (puts new_status) none none false)
          no_tasks
        ≡ (err (not_found tasks job), no_tasks))
update_missing_example =
    update_missing library map_order tasks team job job_key no_tasks (puts new_status) none none
      addressed not_there

forced_runs :
    run map_order
      (Registry.update_status library tasks team job (puts new_status) none none true)
      no_tasks
    ≡ (ok (task created_task, true), created_store)
unfolding Registry.update_status run library simple_api_server.Registry.Checks.key_from_context
    str_eq perform lookup simple_api_server.Registry.Accept.accept_create
    Strategy.prepare_for_create Strategy.validate Strategy.validate_task
    simple_api_server.Registry.Checks.validate_object simple_api_server.Prelude.Decimal.format_uint
    Store.put
forced_runs = refl

update_status-creates_example :
    (true ≡ true)
    × (lookup job_key created_store.items ≡ some (task created_task))
    × (stored : Task) × NewTask library team new_status stored
    × (task created_task ≡ task stored)
update_status-creates_example =
    update_status-creates library map_order tasks team job job_key no_tasks (puts new_status) none
      none addressed not_there library-LibraryLaws new_status (task created_task) true created_store
      refl forced_runs

-- A Delete of the version that was read.
abbrev pub if_unchanged : DeleteOptions
if_unchanged = record {
  preconditions =
      some (record { uid = none; resource_version = some old.object_meta.resource_version });
}

pub delete_runs :
    run map_order (Registry.delete library tasks team job none (some if_unchanged)) one_task
    ≡ (ok (task old, true), emptied_store)
unfolding Registry.delete run library simple_api_server.Registry.Checks.key_from_context str_eq
    perform lookup key_eq simple_api_server.Registry.Accept.accept_delete
    simple_api_server.Registry.Checks.check_preconditions
    simple_api_server.Registry.Checks.validate_object Store.remove
delete_runs = refl

delete_lem_example :
    (true ≡ true)
    × (lookup job_key one_task.items ≡ some (task old))
    × (lookup job_key emptied_store.items ≡ none)
    × ((j : Key) → job_key ≢ j → lookup j emptied_store.items ≡ lookup j one_task.items)
    × ((pre : Preconditions)
        → if_unchanged.preconditions ≡ some pre
        → Meets pre.uid old.object_meta.uid
          × Meets pre.resource_version old.object_meta.resource_version)
delete_lem_example =
    delete_lem library map_order tasks team job job_key none if_unchanged addressed one_task
      emptied_store (task old) true old.object_meta one_task-IsValid.unique delete_runs refl

only_tasks : OnlyTasks one_task
unfolding lookup
only_tasks k o e = elim (Bool-cases (key_eq job_key k)) [
  | inl f ↦ (old, some-injective (sym (rw f at e)))
  | inr f ↦ absurd (cc (rw f at e))
]

abbrev no_options : ListOptions
no_options = record { field_selector = none; label_selector = none }

list_lem_example :
    (items : List Task) × (version : ℕ) × (run map_order
        (Registry.list library tasks team (some no_options))
        one_task
      ≡ (ok (list_of items version), one_task))
    × ((t : Task)
        → Memᴰ t items ↔ (
            (k : Key) × InNamespace (library.namespace_from team).0 k
            × (lookup k one_task.items ≡ some (task t))
            × (selector_of library.everything (some no_options) t.object_meta.labels ≡ true)))
    × ((t : Task) → Memᴰ t items → parse_rv_or_zero t.object_meta.resource_version ≤ version)
    × (version ≤ 1)
    × ((version ≡ 1)
        ⊎ ((t : Task) × Memᴰ t items × (version ≡ parse_rv_or_zero t.object_meta.resource_version)))
list_lem_example =
    list_lem library map_order tasks team (some no_options) one_task (λ m. Permᴰ.refl m)
      one_task-IsValid only_tasks refl
