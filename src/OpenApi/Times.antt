-- ===== src/OpenApi/Times.antt =====
-- The definitions of pkg/generated/openapi/zz_generated.openapi.go for times.
use simple_api_server.Prelude.{[], ◌∷◌}
use simple_api_server.OpenApi.Schema.{
  types, types_of, format, format_of, default_number, plain, schema, leaf, properties, no_more,
  field, definition, ◌⨾◌, Definition,
}

abbrev pub meta_duration_schema : Definition
meta_duration_schema =
    definition
      (schema
        (record plain {
          schema_type = types_of "v1.Duration";
          schema_format = format_of "v1.Duration";
        })
        leaf)
      ([])

abbrev pub meta_micro_time_schema : Definition
meta_micro_time_schema =
    definition
      (schema
        (record plain {
          schema_type = types_of "v1.MicroTime";
          schema_format = format_of "v1.MicroTime";
        })
        leaf)
      ([])

abbrev pub meta_time_schema : Definition
meta_time_schema =
    definition
      (schema
        (record plain { schema_type = types_of "v1.Time"; schema_format = format_of "v1.Time" })
        leaf)
      ([])

abbrev pub meta_timestamp_schema : Definition
meta_timestamp_schema =
    definition
      (schema
        (record plain { schema_type = types ("object" ∷ []); required = "seconds" ∷ "nanos" ∷ [] })
        (properties (
          field "seconds" (
            schema
              (record plain {
                schema_type = types ("integer" ∷ []);
                schema_format = format "int64";
                default_value = default_number 0;
              })
              leaf)
          ⨾ field "nanos" (
              schema
                (record plain {
                  schema_type = types ("integer" ∷ []);
                  schema_format = format "int32";
                  default_value = default_number 0;
                })
                leaf)
          ⨾ no_more)))
      ([])
