-- ===== src/OpenApi/Events.antt =====
-- The definitions of pkg/generated/openapi/zz_generated.openapi.go for events and conditions.
use simple_api_server.Prelude.{[], ◌∷◌}
use simple_api_server.OpenApi.Schema.{
  model_of, types, format, plain, schema, leaf, reference, properties, no_more, field,
  default_string_schema, definition, ◌⨾◌, Definition,
}

abbrev pub meta_condition_schema : Definition
meta_condition_schema =
    definition
      (schema
        (record plain {
          schema_type = types ("object" ∷ []);
          required = "type" ∷ "status" ∷ "lastTransitionTime" ∷ "reason" ∷ "message" ∷ [];
        })
        (properties (
          field "type" default_string_schema
          ⨾ field "status" default_string_schema
          ⨾ field "observedGeneration" (
              schema
                (record plain {
                  schema_type = types ("integer" ∷ []);
                  schema_format = format "int64";
                })
                leaf)
          ⨾ field "lastTransitionTime" (schema plain (reference (model_of "v1.Time")))
          ⨾ field "reason" default_string_schema
          ⨾ field "message" default_string_schema
          ⨾ no_more)))
      (model_of "v1.Time" ∷ [])

abbrev pub meta_internal_event_schema : Definition
meta_internal_event_schema =
    definition
      (schema
        (record plain { schema_type = types ("object" ∷ []); required = "Type" ∷ "Object" ∷ [] })
        (properties
          (field "Type" default_string_schema ⨾ field "Object" (schema plain leaf) ⨾ no_more)))
      ([])

abbrev pub meta_shard_info_schema : Definition
meta_shard_info_schema =
    definition
      (schema (record plain { schema_type = types ("object" ∷ []); required = "selector" ∷ [] })
        (properties (field "selector" default_string_schema ⨾ no_more)))
      ([])

abbrev pub meta_watch_event_schema : Definition
meta_watch_event_schema =
    definition
      (schema
        (record plain { schema_type = types ("object" ∷ []); required = "type" ∷ "object" ∷ [] })
        (properties (
          field "type" default_string_schema
          ⨾ field "object" (schema plain (reference (model_of "runtime.RawExtension")))
          ⨾ no_more)))
      (model_of "runtime.RawExtension" ∷ [])
