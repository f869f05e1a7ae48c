-- ===== src/Examples/Accepted.antt =====
-- What a successful update shows, at a concrete request.
use simple_api_server.Prelude.{refl, none, false, inl}
use simple_api_server.Api.{task}
use simple_api_server.Registry.Accepted.{Shown, update-Shown}
use simple_api_server.Examples.Fixture.{library}
use simple_api_server.Examples.Data.{
  tasks, team, job, job_key, map_order, old, one_task, puts, new_image, updated, updated_store,
}
use simple_api_server.Examples.Updates.{addressed, found, update_runs}

update-Shown_example : Shown team (puts new_image) (task old) old.object_meta
update-Shown_example =
    update-Shown library map_order tasks team job job_key (puts new_image) none none false
      (task old) old.object_meta one_task updated_store (task updated) false addressed found refl
      (inl update_runs)
