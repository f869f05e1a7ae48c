-- ===== src/OpenApi/ReadOptions.antt =====
-- The definitions of pkg/generated/openapi/zz_generated.openapi.go for the options of reads.
use simple_api_server.Prelude.{[], ◌∷◌}
use simple_api_server.OpenApi.Schema.{
  types, format, plain, schema, leaf, properties, no_more, field, string_schema, definition, ◌⨾◌,
  Definition,
}

abbrev pub meta_get_options_schema : Definition
meta_get_options_schema =
    definition
      (schema (record plain { schema_type = types ("object" ∷ []) })
        (properties (
          field "kind" string_schema
          ⨾ field "apiVersion" string_schema
          ⨾ field "resourceVersion" string_schema
          ⨾ no_more)))
      ([])

abbrev pub meta_list_options_schema : Definition
meta_list_options_schema =
    definition
      (schema (record plain { schema_type = types ("object" ∷ []) })
        (properties (
          field "kind" string_schema
          ⨾ field "apiVersion" string_schema
          ⨾ field "labelSelector" string_schema
          ⨾ field "fieldSelector" string_schema
          ⨾ field "watch" (
              schema
                (record plain { schema_type = types ("boolean" ∷ []); schema_format = format "" })
                leaf)
          ⨾ field "allowWatchBookmarks" (
              schema
                (record plain { schema_type = types ("boolean" ∷ []); schema_format = format "" })
                leaf)
          ⨾ field "resourceVersion" string_schema
          ⨾ field "resourceVersionMatch" string_schema
          ⨾ field "timeoutSeconds" (
              schema
                (record plain {
                  schema_type = types ("integer" ∷ []);
                  schema_format = format "int64";
                })
                leaf)
          ⨾ field "limit" (
              schema
                (record plain {
                  schema_type = types ("integer" ∷ []);
                  schema_format = format "int64";
                })
                leaf)
          ⨾ field "continue" string_schema
          ⨾ field "sendInitialEvents" (
              schema
                (record plain { schema_type = types ("boolean" ∷ []); schema_format = format "" })
                leaf)
          ⨾ field "shardSelector" string_schema
          ⨾ no_more)))
      ([])

abbrev pub meta_table_options_schema : Definition
meta_table_options_schema =
    definition
      (schema (record plain { schema_type = types ("object" ∷ []) })
        (properties (
          field "kind" string_schema
          ⨾ field "apiVersion" string_schema
          ⨾ field "includeObject" string_schema
          ⨾ no_more)))
      ([])
