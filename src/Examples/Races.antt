-- ===== src/Examples/Races.antt =====
-- Two creations of one Task at concrete requests.
use simple_api_server.Prelude.{◌≡◌, refl, none, some, [], ◌∷◌, arith, text}
use simple_api_server.Kube.{already_exists}
use simple_api_server.Kube.Outcome.{ok, err}
use simple_api_server.Api.{Task, task, empty_status}
use simple_api_server.Store.{lookup}
use simple_api_server.Handler.{done}
use simple_api_server.Handler.Interleaving.{interleave}
use simple_api_server.Registry
use simple_api_server.Registry.Accept.{accept_create}
use simple_api_server.Registry.Race.{pair, stamped}
use simple_api_server.Registry.CreateRace.{create_race}
use simple_api_server.Examples.Fixture.{library}
use simple_api_server.Examples.Data.{
  tasks, team, job, job_key, map_order, no_tasks, new_image, other_image, task_with, meta_at, runs,
}
use simple_api_server.Examples.Requests.{not_there}

abbrev first_new : Task
first_new = task_with (meta_at (text "1") 1) (runs (text "alpine")) empty_status

abbrev second_new : Task
second_new = task_with (meta_at (text "1") 1) (runs (text "debian")) empty_status

accepts_first : accept_create library team (task new_image) none ≡ ok (task first_new)
unfolding accept_create library simple_api_server.Strategy.prepare_for_create
    simple_api_server.Strategy.validate simple_api_server.Strategy.validate_task
    simple_api_server.Prelude.str_eq simple_api_server.Registry.Checks.validate_object
accepts_first = refl

accepts_second : accept_create library team (task other_image) none ≡ ok (task second_new)
unfolding accept_create library simple_api_server.Strategy.prepare_for_create
    simple_api_server.Strategy.validate simple_api_server.Strategy.validate_task
    simple_api_server.Prelude.str_eq simple_api_server.Registry.Checks.validate_object
accepts_second = refl

create_race_example :
    let end = interleave map_order (0 ∷ 1 ∷ []) (
      pair map_order no_tasks
        (Registry.create library tasks team (task new_image) none)
        (Registry.create library tasks team (task other_image) none)) in
    (end.threads 0 ≡ done (ok (stamped first_new.object_meta 2 (task first_new))))
    × (end.threads 1 ≡ done (err (already_exists tasks job)))
    × (lookup job_key end.store.items ≡ some (stamped first_new.object_meta 2 (task first_new)))
create_race_example =
    create_race library map_order tasks team team (task new_image) (task other_image) none none
      (task first_new) (task second_new) first_new.object_meta job_key no_tasks accepts_first
      accepts_second refl refl refl not_there (omega arith)
