-- ===== src/Examples/Stores.antt =====
-- The theorems about the store and its clients at concrete stores.
use mathlib.Core.List.Permᴰ
use mathlib.Core.List.{Memᴰ}
use simple_api_server.Prelude.{
  ◌+◌, ◌%◌, ◌≤◌, ◌≡◌, ◌↔◌, ◌⊎◌, refl, none, some, [], ◌∷◌, arith, str_eq, List, Bool, false,
}
use simple_api_server.Prelude.Decimal.{uint64_mod, format_uint}
use simple_api_server.Registry.Checks.{parse_rv_or_zero, format_rv}
use simple_api_server.Registry.Versions.{parse_rv_or_zero-format_rv}
use simple_api_server.Kube.{already_exists, cannot_stamp, no_object_meta}
use simple_api_server.Kube.Outcome.{err}
use simple_api_server.Api.{Object, task}
use simple_api_server.Store
use simple_api_server.Store.{Key, Store, lookup, key_eq}
use simple_api_server.Store.Calls.{Call, perform}
use simple_api_server.Store.Invariant.{IsValid, new-IsValid, create-IsValid}
use simple_api_server.Store.Listing.{InNamespace, list_iff}
use simple_api_server.Store.Refinement.{view, perform_spec}
use simple_api_server.Store.Refinement.Traces.{
  run_calls, forget_all, run_calls-refines, perform-IsValid, perform_error,
}
use simple_api_server.Handler.Interleaving.{System, interleave, interleave-IsValid}
use simple_api_server.Registry
use simple_api_server.Registry.Race.{pair}
use simple_api_server.Registry.Atomic.{IsAtomic, handlers-IsAtomic}
use simple_api_server.Examples.Fixture.{library}
use simple_api_server.Examples.Data.{
  tasks, team, job, job_key, map_order, old, one_task, puts, new_image, other_image,
}

pub one_task-IsValid : IsValid one_task
unfolding Store.create lookup Store.put format_uint
one_task-IsValid =
    create-IsValid job_key (task old) (Store.new tasks)
      (new-IsValid (Store.new tasks) refl (omega arith)) (omega arith)

abbrev three_calls : List Call
three_calls =
    Call.create job_key (task old) ∷ Call.update job_key (task new_image) ∷ Call.delete job_key ∷ []

run_calls-refines_example :
    forget_all (run_calls perform three_calls one_task)
    ≡ run_calls perform_spec three_calls (view one_task)
run_calls-refines_example = run_calls-refines three_calls one_task one_task-IsValid.unique

perform-IsValid_example : IsValid (perform (Call.delete job_key) one_task).1
perform-IsValid_example =
    perform-IsValid (Call.delete job_key) one_task one_task-IsValid (omega arith)

taken : (perform (Call.create job_key (task new_image)) one_task).0 ≡ err (already_exists tasks job)
unfolding perform Store.create lookup key_eq str_eq
taken = refl

perform_error_example :
    ((perform (Call.create job_key (task new_image)) one_task).1 ≡ one_task)
    ⊎ ((already_exists tasks job ≡ cannot_stamp no_object_meta)
        × ((perform (Call.create job_key (task new_image)) one_task).1
            ≡ record one_task { rv = (1 + 1) % uint64_mod }))
perform_error_example =
    perform_error (Call.create job_key (task new_image)) one_task (already_exists tasks job) taken

list_iff_example :
    Memᴰ (task old) (Store.list map_order team one_task)
    ↔ ((k : Key) × InNamespace team k × (lookup k one_task.items ≡ some (task old)))
list_iff_example =
    list_iff map_order team one_task (λ m. Permᴰ.refl m) one_task-IsValid.unique (task old)

-- Two updates of one Task.
abbrev two_updates : System (Object × Bool)
two_updates =
    pair map_order one_task
      (Registry.update library tasks team job (puts new_image) none none false)
      (Registry.update library tasks team job (puts other_image) none none false)

interleave-IsValid_example :
    IsValid (interleave map_order (0 ∷ 1 ∷ 1 ∷ 0 ∷ []) two_updates).store
    × (1 ≤ (interleave map_order (0 ∷ 1 ∷ 1 ∷ 0 ∷ []) two_updates).store.rv)
    × ((interleave map_order (0 ∷ 1 ∷ 1 ∷ 0 ∷ []) two_updates).store.rv ≤ 1 + 4)
interleave-IsValid_example =
    interleave-IsValid map_order (0 ∷ 1 ∷ 1 ∷ 0 ∷ []) two_updates one_task-IsValid (omega arith)

handlers-IsAtomic_example :
    IsAtomic (Registry.create library tasks team (task old) none)
    × IsAtomic (Registry.update library tasks team job (puts new_image) none none false)
    × IsAtomic (Registry.update_status library tasks team job (puts new_image) none none false)
    × IsAtomic (Registry.delete library tasks team job none none)
handlers-IsAtomic_example =
    handlers-IsAtomic library tasks team job (task old) (puts new_image) none none none false none

parse_rv_or_zero-format_rv_example : parse_rv_or_zero (format_rv 1024) ≡ 1024
parse_rv_or_zero-format_rv_example = parse_rv_or_zero-format_rv 1024 (omega arith)
