-- ===== src/Examples/Updates.antt =====
-- The theorems about updates at concrete requests.
use simple_api_server.Prelude.{
  ◌+◌, ◌%◌, ◌<◌, ◌≡◌, ◌≢◌, ◌↔◌, refl, none, true, false, some, List, [], ◌∷◌, arith, Bool, ◌^◌,
  str_eq, str_eq_iff,
}
use simple_api_server.Kube.{Cause, conflict}
use simple_api_server.Kube.Outcome.{ok, err}
use simple_api_server.Api.{Task, task}
use simple_api_server.Store
use simple_api_server.Store.{Store, lookup, key_eq}
use simple_api_server.Store.Calls.{perform}
use simple_api_server.Handler.{run}
use simple_api_server.Strategy
use simple_api_server.Strategy.SpecEqual.{SameSpec}
use simple_api_server.StatusStrategy
use simple_api_server.Registry
use simple_api_server.Registry.{update_on_store}
use simple_api_server.Registry.Checks.{key_from_context}
use simple_api_server.Registry.Version.{update_stale}
use simple_api_server.Registry.Subresources.{Result, update-keeps_status, update_status-keeps_spec}
use simple_api_server.Registry.Sequence.{update_second}
use simple_api_server.StatusStrategy.{validate_status_update}
use simple_api_server.Examples.Stores.{one_task-IsValid}
use simple_api_server.Examples.Fixture.{library, library-LibraryLaws}
use simple_api_server.Examples.Data.{
  tasks, team, job, job_key, map_order, old, one_task, puts, new_image, updated, updated_store,
  other_image, new_status, status_updated, status_store,
}

pub addressed : key_from_context library team job true tasks ≡ ok job_key
unfolding key_from_context library str_eq
addressed = refl

pub found : lookup job_key one_task.items ≡ some (task old)
unfolding lookup key_eq str_eq
found = refl

pub update_runs :
    run map_order (Registry.update library tasks team job (puts new_image) none none false) one_task
    ≡ (ok (task updated, false), updated_store)
unfolding Registry.update run perform library Store.get Store.update key_from_context str_eq lookup
    key_eq simple_api_server.Registry.Accept.accept_update
    simple_api_server.Registry.Checks.check_preconditions
    simple_api_server.Registry.Checks.check_resource_version Strategy.prepare_for_update
    Strategy.validate_update Strategy.validate_task
    simple_api_server.Registry.Checks.validate_object_update
    simple_api_server.Prelude.Decimal.format_uint Strategy.spec_equal Store.put
update_runs = refl

updated_found : lookup job_key updated_store.items ≡ some (task updated)
unfolding lookup key_eq str_eq
updated_found = refl

versions_differ : new_image.object_meta.resource_version ≢ updated.object_meta.resource_version
unfolding str_eq
versions_differ h =
    cc
      ((str_eq_iff new_image.object_meta.resource_version updated.object_meta.resource_version).1 h)

-- The Task that the client sends over a later version is refused.
update_stale_example :
    ((c : Cause) × (run map_order
          (Registry.update library tasks team job (puts new_image) none none true)
          updated_store
        ≡ (err (conflict tasks job c), updated_store)))
    × ((c : Cause) × (run map_order
            (Registry.update_status library tasks team job (puts new_image) none none true)
            updated_store
          ≡ (err (conflict tasks job c), updated_store)))
update_stale_example =
    update_stale library map_order tasks team job job_key updated_store (task updated)
      (task new_image) updated.object_meta new_image.object_meta addressed updated_found refl refl
      versions_differ (puts new_image) refl refl none none true

update_second_example :
    ((c : Cause) × (run map_order
          (Registry.update library tasks team job (puts other_image) none none false)
          updated_store
        ≡ (err (conflict tasks job c), updated_store)))
    × ((c : Cause) × (run map_order
            (Registry.update_status library tasks team job (puts other_image) none none false)
            updated_store
          ≡ (err (conflict tasks job c), updated_store)))
update_second_example =
    update_second library map_order tasks team job job_key one_task updated_store (task old)
      (task updated) (task other_image) false old.object_meta other_image.object_meta
      one_task-IsValid (omega arith) addressed found refl (puts new_image) (puts other_image) none
      none none none false false update_runs (λ _. refl) refl refl refl

update-keeps_status_example :
    (sent : Task) × (stored : Task) × Result team job_key updated_store old
      (task updated)
      (puts new_image)
      sent
      stored
    × (stored.spec ≡ sent.spec)
    × (stored.status ≡ old.status)
    × (stored.spec.image ≢ [])
    × ((stored.object_meta.generation ≡ old.object_meta.generation) ↔ SameSpec sent.spec old.spec)
    × ((SameSpec sent.spec old.spec → ⊥)
        → stored.object_meta.generation ≡ (old.object_meta.generation + 1) % 2 ^ 64)
update-keeps_status_example =
    update-keeps_status library library-LibraryLaws map_order tasks team job job_key one_task
      updated_store old (task updated) false addressed found (puts new_image) none none false
      update_runs (omega arith)

update_status_runs :
    run map_order
      (Registry.update_status library tasks team job (puts new_status) none none false)
      one_task
    ≡ (ok (task status_updated, false), status_store)
unfolding Registry.update_status run perform library Store.get Store.update key_from_context str_eq
    lookup key_eq simple_api_server.Registry.Accept.accept_update
    simple_api_server.Registry.Checks.check_preconditions
    simple_api_server.Registry.Checks.check_resource_version StatusStrategy.prepare_for_update
    StatusStrategy.validate_update validate_status_update simple_api_server.Prelude.Int64.int64_lt
    simple_api_server.Registry.Checks.validate_object_update
    simple_api_server.Prelude.Decimal.format_uint Store.put
update_status_runs = refl

update_status-keeps_spec_example :
    (sent : Task) × (stored : Task) × Result team job_key status_store old
      (task status_updated)
      (puts new_status)
      sent
      stored
    × (stored.status ≡ sent.status)
    × (stored.spec ≡ old.spec)
    × (stored.object_meta.generation ≡ old.object_meta.generation)
    × (validate_status_update library stored ≡ [])
update_status-keeps_spec_example =
    update_status-keeps_spec library library-LibraryLaws map_order tasks team job job_key one_task
      status_store old (task status_updated) false addressed found (puts new_status) none none false
      update_status_runs
