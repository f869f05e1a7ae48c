-- ===== src/OpenApi/Metadata.antt =====
-- The definitions of pkg/generated/openapi/zz_generated.openapi.go for the parts of metadata.
use simple_api_server.Prelude.{[], ◌∷◌}
use simple_api_server.OpenApi.Schema.{
  model_of, types, format, extension_text, plain, schema, leaf, reference, items, properties,
  no_more, field, string_schema, default_string_schema, reference_schema, definition, ◌⨾◌,
  Definition,
}

abbrev pub meta_fields_v1_schema : Definition
meta_fields_v1_schema =
    definition (schema (record plain { schema_type = types ("object" ∷ []) }) leaf) ([])

abbrev pub meta_list_schema : Definition
meta_list_schema =
    definition
      (schema (record plain { schema_type = types ("object" ∷ []); required = "items" ∷ [] })
        (properties (
          field "kind" string_schema
          ⨾ field "apiVersion" string_schema
          ⨾ field "metadata" (reference_schema (model_of "v1.ListMeta"))
          ⨾ field "items" (
              schema (record plain { schema_type = types ("array" ∷ []) })
                (items (schema plain (reference (model_of "runtime.RawExtension")))))
          ⨾ no_more)))
      (model_of "v1.ListMeta" ∷ model_of "runtime.RawExtension" ∷ [])

abbrev pub meta_list_meta_schema : Definition
meta_list_meta_schema =
    definition
      (schema (record plain { schema_type = types ("object" ∷ []) })
        (properties (
          field "selfLink" string_schema
          ⨾ field "resourceVersion" string_schema
          ⨾ field "continue" string_schema
          ⨾ field "remainingItemCount" (
              schema
                (record plain {
                  schema_type = types ("integer" ∷ []);
                  schema_format = format "int64";
                })
                leaf)
          ⨾ field "shardInfo" (schema plain (reference (model_of "v1.ShardInfo")))
          ⨾ no_more)))
      (model_of "v1.ShardInfo" ∷ [])

abbrev pub meta_managed_fields_entry_schema : Definition
meta_managed_fields_entry_schema =
    definition
      (schema (record plain { schema_type = types ("object" ∷ []) })
        (properties (
          field "manager" string_schema
          ⨾ field "operation" string_schema
          ⨾ field "apiVersion" string_schema
          ⨾ field "time" (schema plain (reference (model_of "v1.Time")))
          ⨾ field "fieldsType" string_schema
          ⨾ field "fieldsV1" (schema plain (reference (model_of "v1.FieldsV1")))
          ⨾ field "subresource" string_schema
          ⨾ no_more)))
      (model_of "v1.FieldsV1" ∷ model_of "v1.Time" ∷ [])

abbrev pub meta_owner_reference_schema : Definition
meta_owner_reference_schema =
    definition
      (schema
        (record plain {
          schema_type = types ("object" ∷ []);
          required = "apiVersion" ∷ "kind" ∷ "name" ∷ "uid" ∷ [];
          extensions = ("x-kubernetes-map-type", extension_text "atomic") ∷ [];
        })
        (properties (
          field "apiVersion" default_string_schema
          ⨾ field "kind" default_string_schema
          ⨾ field "name" default_string_schema
          ⨾ field "uid" default_string_schema
          ⨾ field "controller" (
              schema
                (record plain { schema_type = types ("boolean" ∷ []); schema_format = format "" })
                leaf)
          ⨾ field "blockOwnerDeletion" (
              schema
                (record plain { schema_type = types ("boolean" ∷ []); schema_format = format "" })
                leaf)
          ⨾ no_more)))
      ([])

abbrev pub meta_partial_object_metadata_schema : Definition
meta_partial_object_metadata_schema =
    definition
      (schema (record plain { schema_type = types ("object" ∷ []) })
        (properties (
          field "kind" string_schema
          ⨾ field "apiVersion" string_schema
          ⨾ field "metadata" (reference_schema (model_of "v1.ObjectMeta"))
          ⨾ no_more)))
      (model_of "v1.ObjectMeta" ∷ [])

abbrev pub meta_partial_object_metadata_list_schema : Definition
meta_partial_object_metadata_list_schema =
    definition
      (schema (record plain { schema_type = types ("object" ∷ []); required = "items" ∷ [] })
        (properties (
          field "kind" string_schema
          ⨾ field "apiVersion" string_schema
          ⨾ field "metadata" (reference_schema (model_of "v1.ListMeta"))
          ⨾ field "items" (
              schema (record plain { schema_type = types ("array" ∷ []) })
                (items (reference_schema (model_of "v1.PartialObjectMetadata"))))
          ⨾ no_more)))
      (model_of "v1.ListMeta" ∷ model_of "v1.PartialObjectMetadata" ∷ [])
