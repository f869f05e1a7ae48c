-- ===== src/OpenApi/Objects.antt =====
-- The definitions of pkg/generated/openapi/zz_generated.openapi.go for the metadata of every object.
use simple_api_server.Prelude.{[], ◌∷◌}
use simple_api_server.OpenApi.Schema.{
  model_of, types, format, extension_text, extension_list, plain, schema, leaf, reference, items,
  additional, properties, no_more, field, string_schema, default_string_schema, reference_schema,
  definition, ◌⨾◌, Definition,
}

abbrev pub meta_object_meta_schema : Definition
meta_object_meta_schema =
    definition
      (schema (record plain { schema_type = types ("object" ∷ []) })
        (properties (
          field "name" string_schema
          ⨾ field "generateName" string_schema
          ⨾ field "namespace" string_schema
          ⨾ field "selfLink" string_schema
          ⨾ field "uid" string_schema
          ⨾ field "resourceVersion" string_schema
          ⨾ field "generation" (
              schema
                (record plain {
                  schema_type = types ("integer" ∷ []);
                  schema_format = format "int64";
                })
                leaf)
          ⨾ field "creationTimestamp" (schema plain (reference (model_of "v1.Time")))
          ⨾ field "deletionTimestamp" (schema plain (reference (model_of "v1.Time")))
          ⨾ field "deletionGracePeriodSeconds" (
              schema
                (record plain {
                  schema_type = types ("integer" ∷ []);
                  schema_format = format "int64";
                })
                leaf)
          ⨾ field "labels" (
              schema (record plain { schema_type = types ("object" ∷ []) })
                (additional default_string_schema))
          ⨾ field "annotations" (
              schema (record plain { schema_type = types ("object" ∷ []) })
                (additional default_string_schema))
          ⨾ field "ownerReferences" (
              schema
                (record plain {
                  schema_type = types ("array" ∷ []);
                  extensions =
                      ("x-kubernetes-list-map-keys", extension_list ("uid" ∷ []))
                      ∷ ("x-kubernetes-list-type", extension_text "map")
                      ∷ ("x-kubernetes-patch-merge-key", extension_text "uid")
                      ∷ ("x-kubernetes-patch-strategy", extension_text "merge")
                      ∷ [];
                })
                (items (reference_schema (model_of "v1.OwnerReference"))))
          ⨾ field "finalizers" (
              schema
                (record plain {
                  schema_type = types ("array" ∷ []);
                  extensions =
                      ("x-kubernetes-list-type", extension_text "set")
                      ∷ ("x-kubernetes-patch-strategy", extension_text "merge")
                      ∷ [];
                })
                (items default_string_schema))
          ⨾ field "managedFields" (
              schema
                (record plain {
                  schema_type = types ("array" ∷ []);
                  extensions = ("x-kubernetes-list-type", extension_text "atomic") ∷ [];
                })
                (items (reference_schema (model_of "v1.ManagedFieldsEntry"))))
          ⨾ no_more)))
      (model_of "v1.ManagedFieldsEntry" ∷ model_of "v1.OwnerReference" ∷ model_of "v1.Time" ∷ [])

abbrev pub meta_type_meta_schema : Definition
meta_type_meta_schema =
    definition
      (schema (record plain { schema_type = types ("object" ∷ []) })
        (properties (field "kind" string_schema ⨾ field "apiVersion" string_schema ⨾ no_more)))
      ([])
