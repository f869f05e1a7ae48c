-- ===== src/OpenApi/Tables.antt =====
-- The definitions of pkg/generated/openapi/zz_generated.openapi.go for tables.
use simple_api_server.Prelude.{[], ◌∷◌}
use simple_api_server.OpenApi.Schema.{
  model_of, types, format, default_number, extension_text, plain, schema, leaf, reference, items,
  properties, no_more, field, string_schema, default_string_schema, reference_schema, definition,
  ◌⨾◌, Definition,
}

abbrev pub meta_table_schema : Definition
meta_table_schema =
    definition
      (schema
        (record plain {
          schema_type = types ("object" ∷ []);
          required = "columnDefinitions" ∷ "rows" ∷ [];
        })
        (properties (
          field "kind" string_schema
          ⨾ field "apiVersion" string_schema
          ⨾ field "metadata" (reference_schema (model_of "v1.ListMeta"))
          ⨾ field "columnDefinitions" (
              schema
                (record plain {
                  schema_type = types ("array" ∷ []);
                  extensions = ("x-kubernetes-list-type", extension_text "atomic") ∷ [];
                })
                (items (reference_schema (model_of "v1.TableColumnDefinition"))))
          ⨾ field "rows" (
              schema
                (record plain {
                  schema_type = types ("array" ∷ []);
                  extensions = ("x-kubernetes-list-type", extension_text "atomic") ∷ [];
                })
                (items (reference_schema (model_of "v1.TableRow"))))
          ⨾ no_more)))
      (model_of "v1.ListMeta" ∷ model_of "v1.TableColumnDefinition" ∷ model_of "v1.TableRow" ∷ [])

abbrev pub meta_table_column_definition_schema : Definition
meta_table_column_definition_schema =
    definition
      (schema
        (record plain {
          schema_type = types ("object" ∷ []);
          required = "name" ∷ "type" ∷ "format" ∷ "description" ∷ "priority" ∷ [];
        })
        (properties (
          field "name" default_string_schema
          ⨾ field "type" default_string_schema
          ⨾ field "format" default_string_schema
          ⨾ field "description" default_string_schema
          ⨾ field "priority" (
              schema
                (record plain {
                  schema_type = types ("integer" ∷ []);
                  schema_format = format "int32";
                  default_value = default_number 0;
                })
                leaf)
          ⨾ no_more)))
      ([])

abbrev pub meta_table_row_schema : Definition
meta_table_row_schema =
    definition
      (schema (record plain { schema_type = types ("object" ∷ []); required = "cells" ∷ [] })
        (properties (
          field "cells" (
            schema
              (record plain {
                schema_type = types ("array" ∷ []);
                extensions = ("x-kubernetes-list-type", extension_text "atomic") ∷ [];
              })
              (items (
                schema
                  (record plain { schema_type = types ("object" ∷ []); schema_format = format "" })
                  leaf)))
          ⨾ field "conditions" (
              schema
                (record plain {
                  schema_type = types ("array" ∷ []);
                  extensions = ("x-kubernetes-list-type", extension_text "atomic") ∷ [];
                })
                (items (reference_schema (model_of "v1.TableRowCondition"))))
          ⨾ field "object" (schema plain (reference (model_of "runtime.RawExtension")))
          ⨾ no_more)))
      (model_of "v1.TableRowCondition" ∷ model_of "runtime.RawExtension" ∷ [])

abbrev pub meta_table_row_condition_schema : Definition
meta_table_row_condition_schema =
    definition
      (schema
        (record plain { schema_type = types ("object" ∷ []); required = "type" ∷ "status" ∷ [] })
        (properties (
          field "type" default_string_schema
          ⨾ field "status" default_string_schema
          ⨾ field "reason" string_schema
          ⨾ field "message" string_schema
          ⨾ no_more)))
      ([])
