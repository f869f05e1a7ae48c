-- ===== src/OpenApi/Selectors.antt =====
-- The definitions of pkg/generated/openapi/zz_generated.openapi.go for selectors and preconditions.
use simple_api_server.Prelude.{[], ◌∷◌}
use simple_api_server.OpenApi.Schema.{
  model_of, types, extension_text, plain, schema, items, additional, properties, no_more, field,
  string_schema, default_string_schema, reference_schema, definition, ◌⨾◌, Definition,
}

abbrev pub meta_field_selector_requirement_schema : Definition
meta_field_selector_requirement_schema =
    definition
      (schema
        (record plain { schema_type = types ("object" ∷ []); required = "key" ∷ "operator" ∷ [] })
        (properties (
          field "key" default_string_schema
          ⨾ field "operator" default_string_schema
          ⨾ field "values" (
              schema
                (record plain {
                  schema_type = types ("array" ∷ []);
                  extensions = ("x-kubernetes-list-type", extension_text "atomic") ∷ [];
                })
                (items default_string_schema))
          ⨾ no_more)))
      ([])

abbrev pub meta_label_selector_schema : Definition
meta_label_selector_schema =
    definition
      (schema
        (record plain {
          schema_type = types ("object" ∷ []);
          extensions = ("x-kubernetes-map-type", extension_text "atomic") ∷ [];
        })
        (properties (
          field "matchLabels" (
            schema (record plain { schema_type = types ("object" ∷ []) })
              (additional default_string_schema))
          ⨾ field "matchExpressions" (
              schema
                (record plain {
                  schema_type = types ("array" ∷ []);
                  extensions = ("x-kubernetes-list-type", extension_text "atomic") ∷ [];
                })
                (items (reference_schema (model_of "v1.LabelSelectorRequirement"))))
          ⨾ no_more)))
      (model_of "v1.LabelSelectorRequirement" ∷ [])

abbrev pub meta_label_selector_requirement_schema : Definition
meta_label_selector_requirement_schema =
    definition
      (schema
        (record plain { schema_type = types ("object" ∷ []); required = "key" ∷ "operator" ∷ [] })
        (properties (
          field "key" default_string_schema
          ⨾ field "operator" default_string_schema
          ⨾ field "values" (
              schema
                (record plain {
                  schema_type = types ("array" ∷ []);
                  extensions = ("x-kubernetes-list-type", extension_text "atomic") ∷ [];
                })
                (items default_string_schema))
          ⨾ no_more)))
      ([])

abbrev pub meta_preconditions_schema : Definition
meta_preconditions_schema =
    definition
      (schema (record plain { schema_type = types ("object" ∷ []) })
        (properties (field "uid" string_schema ⨾ field "resourceVersion" string_schema ⨾ no_more)))
      ([])
