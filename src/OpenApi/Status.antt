-- ===== src/OpenApi/Status.antt =====
-- The definitions of pkg/generated/openapi/zz_generated.openapi.go for status objects.
use simple_api_server.Prelude.{[], ◌∷◌}
use simple_api_server.OpenApi.Schema.{
  model_of, types, format, extension_text, plain, schema, leaf, reference, items, properties,
  no_more, field, string_schema, reference_schema, definition, ◌⨾◌, Definition,
}

abbrev pub meta_status_schema : Definition
meta_status_schema =
    definition
      (schema (record plain { schema_type = types ("object" ∷ []) })
        (properties (
          field "kind" string_schema
          ⨾ field "apiVersion" string_schema
          ⨾ field "metadata" (reference_schema (model_of "v1.ListMeta"))
          ⨾ field "status" string_schema
          ⨾ field "message" string_schema
          ⨾ field "reason" string_schema
          ⨾ field "details" (schema plain (reference (model_of "v1.StatusDetails")))
          ⨾ field "code" (
              schema
                (record plain {
                  schema_type = types ("integer" ∷ []);
                  schema_format = format "int32";
                })
                leaf)
          ⨾ no_more)))
      (model_of "v1.ListMeta" ∷ model_of "v1.StatusDetails" ∷ [])

abbrev pub meta_status_cause_schema : Definition
meta_status_cause_schema =
    definition
      (schema (record plain { schema_type = types ("object" ∷ []) })
        (properties (
          field "reason" string_schema
          ⨾ field "message" string_schema
          ⨾ field "field" string_schema
          ⨾ no_more)))
      ([])

abbrev pub meta_status_details_schema : Definition
meta_status_details_schema =
    definition
      (schema (record plain { schema_type = types ("object" ∷ []) })
        (properties (
          field "name" string_schema
          ⨾ field "group" string_schema
          ⨾ field "kind" string_schema
          ⨾ field "uid" string_schema
          ⨾ field "causes" (
              schema
                (record plain {
                  schema_type = types ("array" ∷ []);
                  extensions = ("x-kubernetes-list-type", extension_text "atomic") ∷ [];
                })
                (items (reference_schema (model_of "v1.StatusCause"))))
          ⨾ field "retryAfterSeconds" (
              schema
                (record plain {
                  schema_type = types ("integer" ∷ []);
                  schema_format = format "int32";
                })
                leaf)
          ⨾ no_more)))
      (model_of "v1.StatusCause" ∷ [])
