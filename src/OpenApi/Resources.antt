-- ===== src/OpenApi/Resources.antt =====
-- The definitions of pkg/generated/openapi/zz_generated.openapi.go for API resources and paths.
use simple_api_server.Prelude.{[], ◌∷◌, false}
use simple_api_server.OpenApi.Schema.{
  model_of, types, format, default_bool, extension_text, plain, schema, leaf, items, properties,
  no_more, field, string_schema, default_string_schema, reference_schema, definition, ◌⨾◌,
  Definition,
}

abbrev pub meta_api_resource_schema : Definition
meta_api_resource_schema =
    definition
      (schema
        (record plain {
          schema_type = types ("object" ∷ []);
          required = "name" ∷ "singularName" ∷ "namespaced" ∷ "kind" ∷ "verbs" ∷ [];
        })
        (properties (
          field "name" default_string_schema
          ⨾ field "singularName" default_string_schema
          ⨾ field "namespaced" (
              schema
                (record plain {
                  schema_type = types ("boolean" ∷ []);
                  schema_format = format "";
                  default_value = default_bool false;
                })
                leaf)
          ⨾ field "group" string_schema
          ⨾ field "version" string_schema
          ⨾ field "kind" default_string_schema
          ⨾ field "verbs" (
              schema (record plain { schema_type = types ("array" ∷ []) })
                (items default_string_schema))
          ⨾ field "shortNames" (
              schema
                (record plain {
                  schema_type = types ("array" ∷ []);
                  extensions = ("x-kubernetes-list-type", extension_text "atomic") ∷ [];
                })
                (items default_string_schema))
          ⨾ field "categories" (
              schema
                (record plain {
                  schema_type = types ("array" ∷ []);
                  extensions = ("x-kubernetes-list-type", extension_text "atomic") ∷ [];
                })
                (items default_string_schema))
          ⨾ field "storageVersionHash" string_schema
          ⨾ no_more)))
      ([])

abbrev pub meta_api_resource_list_schema : Definition
meta_api_resource_list_schema =
    definition
      (schema
        (record plain {
          schema_type = types ("object" ∷ []);
          required = "groupVersion" ∷ "resources" ∷ [];
        })
        (properties (
          field "kind" string_schema
          ⨾ field "apiVersion" string_schema
          ⨾ field "groupVersion" default_string_schema
          ⨾ field "resources" (
              schema
                (record plain {
                  schema_type = types ("array" ∷ []);
                  extensions = ("x-kubernetes-list-type", extension_text "atomic") ∷ [];
                })
                (items (reference_schema (model_of "v1.APIResource"))))
          ⨾ no_more)))
      (model_of "v1.APIResource" ∷ [])

abbrev pub meta_group_resource_schema : Definition
meta_group_resource_schema =
    definition
      (schema
        (record plain { schema_type = types ("object" ∷ []); required = "group" ∷ "resource" ∷ [] })
        (properties
          (field "group" default_string_schema ⨾ field "resource" default_string_schema ⨾ no_more)))
      ([])

abbrev pub meta_group_version_resource_schema : Definition
meta_group_version_resource_schema =
    definition
      (schema
        (record plain {
          schema_type = types ("object" ∷ []);
          required = "group" ∷ "version" ∷ "resource" ∷ [];
        })
        (properties (
          field "group" default_string_schema
          ⨾ field "version" default_string_schema
          ⨾ field "resource" default_string_schema
          ⨾ no_more)))
      ([])

abbrev pub meta_root_paths_schema : Definition
meta_root_paths_schema =
    definition
      (schema (record plain { schema_type = types ("object" ∷ []); required = "paths" ∷ [] })
        (properties (
          field "paths" (
            schema
              (record plain {
                schema_type = types ("array" ∷ []);
                extensions = ("x-kubernetes-list-type", extension_text "atomic") ∷ [];
              })
              (items default_string_schema))
          ⨾ no_more)))
      ([])

abbrev pub meta_server_address_by_client_cidr_schema : Definition
meta_server_address_by_client_cidr_schema =
    definition
      (schema
        (record plain {
          schema_type = types ("object" ∷ []);
          required = "clientCIDR" ∷ "serverAddress" ∷ [];
        })
        (properties (
          field "clientCIDR" default_string_schema
          ⨾ field "serverAddress" default_string_schema
          ⨾ no_more)))
      ([])
