-- ===== src/OpenApi/Runtime.antt =====
-- The definitions of pkg/generated/openapi/zz_generated.openapi.go for the packages runtime and version.
use simple_api_server.Prelude.{[], ◌∷◌}
use simple_api_server.OpenApi.Schema.{
  types, plain, schema, leaf, properties, no_more, field, string_schema, default_string_schema,
  definition, ◌⨾◌, Definition,
}

abbrev pub runtime_raw_extension_schema : Definition
runtime_raw_extension_schema =
    definition (schema (record plain { schema_type = types ("object" ∷ []) }) leaf) ([])

abbrev pub runtime_type_meta_schema : Definition
runtime_type_meta_schema =
    definition
      (schema (record plain { schema_type = types ("object" ∷ []) })
        (properties (field "apiVersion" string_schema ⨾ field "kind" string_schema ⨾ no_more)))
      ([])

abbrev pub runtime_unknown_schema : Definition
runtime_unknown_schema =
    definition
      (schema
        (record plain {
          schema_type = types ("object" ∷ []);
          required = "ContentEncoding" ∷ "ContentType" ∷ [];
        })
        (properties (
          field "apiVersion" string_schema
          ⨾ field "kind" string_schema
          ⨾ field "ContentEncoding" default_string_schema
          ⨾ field "ContentType" default_string_schema
          ⨾ no_more)))
      ([])

abbrev pub version_info_schema : Definition
version_info_schema =
    definition
      (schema
        (record plain {
          schema_type = types ("object" ∷ []);
          required =
              "major" ∷ "minor" ∷ "gitVersion" ∷ "gitCommit" ∷ "gitTreeState" ∷ "buildDate"
              ∷ "goVersion" ∷ "compiler" ∷ "platform" ∷ [];
        })
        (properties (
          field "major" default_string_schema
          ⨾ field "minor" default_string_schema
          ⨾ field "emulationMajor" string_schema
          ⨾ field "emulationMinor" string_schema
          ⨾ field "minCompatibilityMajor" string_schema
          ⨾ field "minCompatibilityMinor" string_schema
          ⨾ field "gitVersion" default_string_schema
          ⨾ field "gitCommit" default_string_schema
          ⨾ field "gitTreeState" default_string_schema
          ⨾ field "buildDate" default_string_schema
          ⨾ field "goVersion" default_string_schema
          ⨾ field "compiler" default_string_schema
          ⨾ field "platform" default_string_schema
          ⨾ no_more)))
      ([])
