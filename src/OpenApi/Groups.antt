-- ===== src/OpenApi/Groups.antt =====
-- The definitions of pkg/generated/openapi/zz_generated.openapi.go for API groups, versions and kinds.
use simple_api_server.Prelude.{[], ◌∷◌}
use simple_api_server.OpenApi.Schema.{
  model_of, types, extension_text, plain, schema, items, properties, no_more, field, string_schema,
  default_string_schema, reference_schema, definition, ◌⨾◌, Definition,
}

abbrev pub meta_api_group_schema : Definition
meta_api_group_schema =
    definition
      (schema
        (record plain { schema_type = types ("object" ∷ []); required = "name" ∷ "versions" ∷ [] })
        (properties (
          field "kind" string_schema
          ⨾ field "apiVersion" string_schema
          ⨾ field "name" default_string_schema
          ⨾ field "versions" (
              schema
                (record plain {
                  schema_type = types ("array" ∷ []);
                  extensions = ("x-kubernetes-list-type", extension_text "atomic") ∷ [];
                })
                (items (reference_schema (model_of "v1.GroupVersionForDiscovery"))))
          ⨾ field "preferredVersion" (reference_schema (model_of "v1.GroupVersionForDiscovery"))
          ⨾ field "serverAddressByClientCIDRs" (
              schema
                (record plain {
                  schema_type = types ("array" ∷ []);
                  extensions = ("x-kubernetes-list-type", extension_text "atomic") ∷ [];
                })
                (items (reference_schema (model_of "v1.ServerAddressByClientCIDR"))))
          ⨾ no_more)))
      (model_of "v1.GroupVersionForDiscovery" ∷ model_of "v1.ServerAddressByClientCIDR" ∷ [])

abbrev pub meta_api_group_list_schema : Definition
meta_api_group_list_schema =
    definition
      (schema (record plain { schema_type = types ("object" ∷ []); required = "groups" ∷ [] })
        (properties (
          field "kind" string_schema
          ⨾ field "apiVersion" string_schema
          ⨾ field "groups" (
              schema
                (record plain {
                  schema_type = types ("array" ∷ []);
                  extensions = ("x-kubernetes-list-type", extension_text "atomic") ∷ [];
                })
                (items (reference_schema (model_of "v1.APIGroup"))))
          ⨾ no_more)))
      (model_of "v1.APIGroup" ∷ [])

abbrev pub meta_api_versions_schema : Definition
meta_api_versions_schema =
    definition
      (schema
        (record plain {
          schema_type = types ("object" ∷ []);
          required = "versions" ∷ "serverAddressByClientCIDRs" ∷ [];
        })
        (properties (
          field "kind" string_schema
          ⨾ field "apiVersion" string_schema
          ⨾ field "versions" (
              schema
                (record plain {
                  schema_type = types ("array" ∷ []);
                  extensions = ("x-kubernetes-list-type", extension_text "atomic") ∷ [];
                })
                (items default_string_schema))
          ⨾ field "serverAddressByClientCIDRs" (
              schema
                (record plain {
                  schema_type = types ("array" ∷ []);
                  extensions = ("x-kubernetes-list-type", extension_text "atomic") ∷ [];
                })
                (items (reference_schema (model_of "v1.ServerAddressByClientCIDR"))))
          ⨾ no_more)))
      (model_of "v1.ServerAddressByClientCIDR" ∷ [])

abbrev pub meta_group_kind_schema : Definition
meta_group_kind_schema =
    definition
      (schema
        (record plain { schema_type = types ("object" ∷ []); required = "group" ∷ "kind" ∷ [] })
        (properties
          (field "group" default_string_schema ⨾ field "kind" default_string_schema ⨾ no_more)))
      ([])

abbrev pub meta_group_version_schema : Definition
meta_group_version_schema =
    definition
      (schema
        (record plain { schema_type = types ("object" ∷ []); required = "group" ∷ "version" ∷ [] })
        (properties
          (field "group" default_string_schema ⨾ field "version" default_string_schema ⨾ no_more)))
      ([])

abbrev pub meta_group_version_for_discovery_schema : Definition
meta_group_version_for_discovery_schema =
    definition
      (schema
        (record plain {
          schema_type = types ("object" ∷ []);
          required = "groupVersion" ∷ "version" ∷ [];
        })
        (properties (
          field "groupVersion" default_string_schema
          ⨾ field "version" default_string_schema
          ⨾ no_more)))
      ([])

abbrev pub meta_group_version_kind_schema : Definition
meta_group_version_kind_schema =
    definition
      (schema
        (record plain {
          schema_type = types ("object" ∷ []);
          required = "group" ∷ "version" ∷ "kind" ∷ [];
        })
        (properties (
          field "group" default_string_schema
          ⨾ field "version" default_string_schema
          ⨾ field "kind" default_string_schema
          ⨾ no_more)))
      ([])
