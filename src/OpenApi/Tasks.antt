-- ===== src/OpenApi/Tasks.antt =====
-- The definitions of pkg/generated/openapi/zz_generated.openapi.go for the Task types.
use simple_api_server.Prelude.{[], ◌∷◌}
use simple_api_server.OpenApi.Schema.{
  declared, model_of, types, format, extension_text, extension_list, plain, schema, leaf, items,
  properties, no_more, field, string_schema, default_string_schema, reference_schema, definition,
  ◌⨾◌, Definition,
}

abbrev pub tasks_task_schema : Definition
tasks_task_schema =
    definition
      (schema (record plain { schema_type = types ("object" ∷ []) })
        (properties (
          field "kind" string_schema
          ⨾ field "apiVersion" string_schema
          ⨾ field "metadata" (reference_schema (model_of "v1.ObjectMeta"))
          ⨾ field "spec" (
              reference_schema (
                declared
                  "github.com/eapolinario/simple-api-server/pkg/apis/tasks/v1alpha1.TaskSpec"))
          ⨾ field "status" (
              reference_schema (
                declared
                  "github.com/eapolinario/simple-api-server/pkg/apis/tasks/v1alpha1.TaskStatus"))
          ⨾ no_more)))
      (declared "github.com/eapolinario/simple-api-server/pkg/apis/tasks/v1alpha1.TaskSpec"
        ∷ declared "github.com/eapolinario/simple-api-server/pkg/apis/tasks/v1alpha1.TaskStatus"
        ∷ model_of "v1.ObjectMeta"
        ∷ [])

abbrev pub tasks_task_list_schema : Definition
tasks_task_list_schema =
    definition
      (schema (record plain { schema_type = types ("object" ∷ []); required = "items" ∷ [] })
        (properties (
          field "kind" string_schema
          ⨾ field "apiVersion" string_schema
          ⨾ field "metadata" (reference_schema (model_of "v1.ListMeta"))
          ⨾ field "items" (
              schema (record plain { schema_type = types ("array" ∷ []) })
                (items (
                  reference_schema (
                    declared
                      "github.com/eapolinario/simple-api-server/pkg/apis/tasks/v1alpha1.Task"))))
          ⨾ no_more)))
      (declared "github.com/eapolinario/simple-api-server/pkg/apis/tasks/v1alpha1.Task"
        ∷ model_of "v1.ListMeta"
        ∷ [])

abbrev pub tasks_task_spec_schema : Definition
tasks_task_spec_schema =
    definition
      (schema (record plain { schema_type = types ("object" ∷ []); required = "image" ∷ [] })
        (properties (
          field "image" default_string_schema
          ⨾ field "command" (
              schema
                (record plain {
                  schema_type = types ("array" ∷ []);
                  extensions = ("x-kubernetes-list-type", extension_text "atomic") ∷ [];
                })
                (items default_string_schema))
          ⨾ field "args" (
              schema
                (record plain {
                  schema_type = types ("array" ∷ []);
                  extensions = ("x-kubernetes-list-type", extension_text "atomic") ∷ [];
                })
                (items default_string_schema))
          ⨾ no_more)))
      ([])

abbrev pub tasks_task_status_schema : Definition
tasks_task_status_schema =
    definition
      (schema (record plain { schema_type = types ("object" ∷ []) })
        (properties (
          field "phase" string_schema
          ⨾ field "conditions" (
              schema
                (record plain {
                  schema_type = types ("array" ∷ []);
                  extensions =
                      ("x-kubernetes-list-map-keys", extension_list ("type" ∷ []))
                      ∷ ("x-kubernetes-list-type", extension_text "map")
                      ∷ ("x-kubernetes-patch-merge-key", extension_text "type")
                      ∷ ("x-kubernetes-patch-strategy", extension_text "merge")
                      ∷ [];
                })
                (items (reference_schema (model_of "v1.Condition"))))
          ⨾ field "observedGeneration" (
              schema
                (record plain {
                  schema_type = types ("integer" ∷ []);
                  schema_format = format "int64";
                })
                leaf)
          ⨾ no_more)))
      (model_of "v1.Condition" ∷ [])
