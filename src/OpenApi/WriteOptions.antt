-- ===== src/OpenApi/WriteOptions.antt =====
-- The definitions of pkg/generated/openapi/zz_generated.openapi.go for the options of writes.
use simple_api_server.Prelude.{[], ◌∷◌, false}
use simple_api_server.OpenApi.Schema.{
  model_of, types, format, default_bool, extension_text, plain, schema, leaf, reference, items,
  properties, no_more, field, string_schema, default_string_schema, definition, ◌⨾◌, Definition,
}

abbrev pub meta_apply_options_schema : Definition
meta_apply_options_schema =
    definition
      (schema
        (record plain {
          schema_type = types ("object" ∷ []);
          required = "force" ∷ "fieldManager" ∷ [];
        })
        (properties (
          field "kind" string_schema
          ⨾ field "apiVersion" string_schema
          ⨾ field "dryRun" (
              schema
                (record plain {
                  schema_type = types ("array" ∷ []);
                  extensions = ("x-kubernetes-list-type", extension_text "atomic") ∷ [];
                })
                (items default_string_schema))
          ⨾ field "force" (
              schema
                (record plain {
                  schema_type = types ("boolean" ∷ []);
                  schema_format = format "";
                  default_value = default_bool false;
                })
                leaf)
          ⨾ field "fieldManager" default_string_schema
          ⨾ no_more)))
      ([])

abbrev pub meta_create_options_schema : Definition
meta_create_options_schema =
    definition
      (schema (record plain { schema_type = types ("object" ∷ []) })
        (properties (
          field "kind" string_schema
          ⨾ field "apiVersion" string_schema
          ⨾ field "dryRun" (
              schema
                (record plain {
                  schema_type = types ("array" ∷ []);
                  extensions = ("x-kubernetes-list-type", extension_text "atomic") ∷ [];
                })
                (items default_string_schema))
          ⨾ field "fieldManager" string_schema
          ⨾ field "fieldValidation" string_schema
          ⨾ no_more)))
      ([])

abbrev pub meta_delete_options_schema : Definition
meta_delete_options_schema =
    definition
      (schema (record plain { schema_type = types ("object" ∷ []) })
        (properties (
          field "kind" string_schema
          ⨾ field "apiVersion" string_schema
          ⨾ field "gracePeriodSeconds" (
              schema
                (record plain {
                  schema_type = types ("integer" ∷ []);
                  schema_format = format "int64";
                })
                leaf)
          ⨾ field "preconditions" (schema plain (reference (model_of "v1.Preconditions")))
          ⨾ field "orphanDependents" (
              schema
                (record plain { schema_type = types ("boolean" ∷ []); schema_format = format "" })
                leaf)
          ⨾ field "propagationPolicy" string_schema
          ⨾ field "dryRun" (
              schema
                (record plain {
                  schema_type = types ("array" ∷ []);
                  extensions = ("x-kubernetes-list-type", extension_text "atomic") ∷ [];
                })
                (items default_string_schema))
          ⨾ field "ignoreStoreReadErrorWithClusterBreakingPotential" (
              schema
                (record plain { schema_type = types ("boolean" ∷ []); schema_format = format "" })
                leaf)
          ⨾ no_more)))
      (model_of "v1.Preconditions" ∷ [])

abbrev pub meta_patch_schema : Definition
meta_patch_schema =
    definition (schema (record plain { schema_type = types ("object" ∷ []) }) leaf) ([])

abbrev pub meta_patch_options_schema : Definition
meta_patch_options_schema =
    definition
      (schema (record plain { schema_type = types ("object" ∷ []) })
        (properties (
          field "kind" string_schema
          ⨾ field "apiVersion" string_schema
          ⨾ field "dryRun" (
              schema
                (record plain {
                  schema_type = types ("array" ∷ []);
                  extensions = ("x-kubernetes-list-type", extension_text "atomic") ∷ [];
                })
                (items default_string_schema))
          ⨾ field "force" (
              schema
                (record plain { schema_type = types ("boolean" ∷ []); schema_format = format "" })
                leaf)
          ⨾ field "fieldManager" string_schema
          ⨾ field "fieldValidation" string_schema
          ⨾ no_more)))
      ([])

abbrev pub meta_update_options_schema : Definition
meta_update_options_schema =
    definition
      (schema (record plain { schema_type = types ("object" ∷ []) })
        (properties (
          field "kind" string_schema
          ⨾ field "apiVersion" string_schema
          ⨾ field "dryRun" (
              schema
                (record plain {
                  schema_type = types ("array" ∷ []);
                  extensions = ("x-kubernetes-list-type", extension_text "atomic") ∷ [];
                })
                (items default_string_schema))
          ⨾ field "fieldManager" string_schema
          ⨾ field "fieldValidation" string_schema
          ⨾ no_more)))
      ([])
