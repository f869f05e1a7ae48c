-- ===== src/Examples/DeleteRaces.antt =====
-- The theorem about a Delete that races an update, at concrete requests.
use simple_api_server.Prelude.{◌≡◌, refl, none, some, true, false, [], ◌∷◌, arith, str_eq, text}
use simple_api_server.Prelude.Decimal.{format_uint}
use simple_api_server.Kube.{Preconditions}
use simple_api_server.Kube.Outcome.{ok}
use simple_api_server.Api.{task}
use simple_api_server.Store.{lookup}
use simple_api_server.Handler.{done}
use simple_api_server.Handler.Interleaving.{interleave}
use simple_api_server.Registry
use simple_api_server.Registry.Checks.{check_preconditions, validate_object}
use simple_api_server.Registry.Accept.{accept_delete}
use simple_api_server.Registry.Race.{pair, stamped}
use simple_api_server.Registry.DeleteRace.{delete_race}
use simple_api_server.Examples.Fixture.{library}
use simple_api_server.Examples.Data.{
  tasks, team, job, job_key, map_order, old, one_task, puts, new_image, accepted_image,
}
use simple_api_server.Examples.Stores.{one_task-IsValid}
use simple_api_server.Examples.Updates.{addressed, found}
use simple_api_server.Examples.Requests.{accepts_image, if_unchanged}

abbrev version_1 : Preconditions
version_1 = record { uid = none; resource_version = some (text "1") }

passes : accept_delete team job none (some if_unchanged) tasks (task old) ≡ ok tt
unfolding accept_delete check_preconditions validate_object str_eq
passes = refl

delete_race_example :
    let end = interleave map_order (0 ∷ 1 ∷ 0 ∷ 1 ∷ []) (
      pair map_order one_task
        (Registry.update library tasks team job (puts new_image) none none false)
        (Registry.delete library tasks team job none (some if_unchanged))) in
    let written = stamped accepted_image.object_meta 2 (task accepted_image) in
    (end.threads 0 ≡ done (ok (written, false)))
    × (end.threads 1 ≡ done (ok (written, true)))
    × (lookup job_key end.store.items ≡ none)
    × (¬ (check_preconditions written (some version_1) tasks job ≡ ok tt))
unfolding format_uint
delete_race_example =
    delete_race library map_order tasks team team job (puts new_image) none none none false
      if_unchanged version_1 1 job_key one_task (task old) (task accepted_image)
      accepted_image.object_meta addressed addressed one_task-IsValid.unique found (omega arith)
      accepts_image refl refl refl (omega arith) passes
