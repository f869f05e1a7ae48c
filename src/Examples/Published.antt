-- ===== src/Examples/Published.antt =====
-- The theorems about the published definitions at the definition of Task.
use Prim.Native.String.{String}
use mathlib.Core.List.{Memᴰ}
use simple_api_server.Prelude.{refl, ◌↔◌}
use simple_api_server.OpenApi.Schema.{
  ModelName, declared, Definition, references, dependencies, property_names, required_names,
  main_schema,
}
use simple_api_server.OpenApi.Tasks.{tasks_task_list_schema}
use simple_api_server.OpenApi.Definitions.{get_openapi_definitions}
use simple_api_server.OpenApi.Closed.{definitions_closed}

abbrev task_name : ModelName
task_name = declared "github.com/eapolinario/simple-api-server/pkg/apis/tasks/v1alpha1.Task"

abbrev list_name : ModelName
list_name = declared "github.com/eapolinario/simple-api-server/pkg/apis/tasks/v1alpha1.TaskList"

definitions_closed_example :
    ((m : ModelName)
      → Memᴰ m (references tasks_task_list_schema)
      → (e : Definition) × Memᴰ (m, e) get_openapi_definitions)
    × ((m : ModelName)
        → Memᴰ m (references tasks_task_list_schema) ↔ Memᴰ m (dependencies tasks_task_list_schema))
    × ((x : String)
        → Memᴰ x (required_names (main_schema tasks_task_list_schema))
        → Memᴰ x (property_names (main_schema tasks_task_list_schema)))
definitions_closed_example =
    definitions_closed list_name tasks_task_list_schema (Memᴰ.tail (Memᴰ.head refl))
