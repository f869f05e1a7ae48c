-- ===== src/OpenApi/Quantity.antt =====
-- The definitions of pkg/generated/openapi/zz_generated.openapi.go for the package resource.
use simple_api_server.Prelude.{[], ◌∷◌, some}
use simple_api_server.OpenApi.Schema.{
  types, types_of, format, format_of, default_number, plain, schema, leaf, properties, no_more,
  field, definition, embed, ◌⨾◌, Definition,
}

abbrev pub resource_quantity_schema : Definition
resource_quantity_schema =
    embed
      (definition
        (schema
          (record plain {
            schema_format = format_of "resource.Quantity";
            one_of = some "resource.Quantity";
          })
          leaf)
        ([]))
      (definition
        (schema
          (record plain {
            schema_type = types_of "resource.Quantity";
            schema_format = format_of "resource.Quantity";
          })
          leaf)
        ([]))

abbrev pub resource_int64_amount_schema : Definition
resource_int64_amount_schema =
    definition
      (schema
        (record plain { schema_type = types ("object" ∷ []); required = "value" ∷ "scale" ∷ [] })
        (properties (
          field "value" (
            schema
              (record plain {
                schema_type = types ("integer" ∷ []);
                schema_format = format "int64";
                default_value = default_number 0;
              })
              leaf)
          ⨾ field "scale" (
              schema
                (record plain {
                  schema_type = types ("integer" ∷ []);
                  schema_format = format "int32";
                  default_value = default_number 0;
                })
                leaf)
          ⨾ no_more)))
      ([])
