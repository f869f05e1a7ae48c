-- ===== src/OpenApi/Definitions.antt =====
-- GetOpenAPIDefinitions of pkg/generated/openapi/zz_generated.openapi.go.
use simple_api_server.Prelude.{List, [], ◌∷◌}
use simple_api_server.OpenApi.Schema.{ModelName, declared, model_of, Definition}
use simple_api_server.OpenApi.Tasks.{
  tasks_task_schema, tasks_task_list_schema, tasks_task_spec_schema, tasks_task_status_schema,
}
use simple_api_server.OpenApi.Groups.{
  meta_api_group_schema, meta_api_group_list_schema, meta_api_versions_schema,
  meta_group_kind_schema, meta_group_version_schema, meta_group_version_for_discovery_schema,
  meta_group_version_kind_schema,
}
use simple_api_server.OpenApi.Resources.{
  meta_api_resource_schema, meta_api_resource_list_schema, meta_group_resource_schema,
  meta_group_version_resource_schema, meta_root_paths_schema,
  meta_server_address_by_client_cidr_schema,
}
use simple_api_server.OpenApi.WriteOptions.{
  meta_apply_options_schema, meta_create_options_schema, meta_delete_options_schema,
  meta_patch_schema, meta_patch_options_schema, meta_update_options_schema,
}
use simple_api_server.OpenApi.ReadOptions.{
  meta_get_options_schema, meta_list_options_schema, meta_table_options_schema,
}
use simple_api_server.OpenApi.Selectors.{
  meta_field_selector_requirement_schema, meta_label_selector_schema,
  meta_label_selector_requirement_schema, meta_preconditions_schema,
}
use simple_api_server.OpenApi.Objects.{meta_object_meta_schema, meta_type_meta_schema}
use simple_api_server.OpenApi.Metadata.{
  meta_fields_v1_schema, meta_list_schema, meta_list_meta_schema, meta_managed_fields_entry_schema,
  meta_owner_reference_schema, meta_partial_object_metadata_schema,
  meta_partial_object_metadata_list_schema,
}
use simple_api_server.OpenApi.Status.{
  meta_status_schema, meta_status_cause_schema, meta_status_details_schema,
}
use simple_api_server.OpenApi.Events.{
  meta_condition_schema, meta_internal_event_schema, meta_shard_info_schema,
  meta_watch_event_schema,
}
use simple_api_server.OpenApi.Tables.{
  meta_table_schema, meta_table_column_definition_schema, meta_table_row_schema,
  meta_table_row_condition_schema,
}
use simple_api_server.OpenApi.Times.{
  meta_duration_schema, meta_micro_time_schema, meta_time_schema, meta_timestamp_schema,
}
use simple_api_server.OpenApi.Runtime.{
  runtime_raw_extension_schema, runtime_type_meta_schema, runtime_unknown_schema,
  version_info_schema,
}
use simple_api_server.OpenApi.Quantity.{resource_quantity_schema}

abbrev pub get_openapi_definitions : List (ModelName × Definition)
get_openapi_definitions =
    (
      declared "github.com/eapolinario/simple-api-server/pkg/apis/tasks/v1alpha1.Task",
      tasks_task_schema,
    )
    ∷ (
      declared "github.com/eapolinario/simple-api-server/pkg/apis/tasks/v1alpha1.TaskList",
      tasks_task_list_schema,
    )
    ∷ (
      declared "github.com/eapolinario/simple-api-server/pkg/apis/tasks/v1alpha1.TaskSpec",
      tasks_task_spec_schema,
    )
    ∷ (
      declared "github.com/eapolinario/simple-api-server/pkg/apis/tasks/v1alpha1.TaskStatus",
      tasks_task_status_schema,
    )
    ∷ (model_of "resource.Quantity", resource_quantity_schema)
    ∷ (model_of "v1.APIGroup", meta_api_group_schema)
    ∷ (model_of "v1.APIGroupList", meta_api_group_list_schema)
    ∷ (model_of "v1.APIResource", meta_api_resource_schema)
    ∷ (model_of "v1.APIResourceList", meta_api_resource_list_schema)
    ∷ (model_of "v1.APIVersions", meta_api_versions_schema)
    ∷ (model_of "v1.ApplyOptions", meta_apply_options_schema)
    ∷ (model_of "v1.Condition", meta_condition_schema)
    ∷ (model_of "v1.CreateOptions", meta_create_options_schema)
    ∷ (model_of "v1.DeleteOptions", meta_delete_options_schema)
    ∷ (model_of "v1.Duration", meta_duration_schema)
    ∷ (model_of "v1.FieldSelectorRequirement", meta_field_selector_requirement_schema)
    ∷ (model_of "v1.FieldsV1", meta_fields_v1_schema)
    ∷ (model_of "v1.GetOptions", meta_get_options_schema)
    ∷ (model_of "v1.GroupKind", meta_group_kind_schema)
    ∷ (model_of "v1.GroupResource", meta_group_resource_schema)
    ∷ (model_of "v1.GroupVersion", meta_group_version_schema)
    ∷ (model_of "v1.GroupVersionForDiscovery", meta_group_version_for_discovery_schema)
    ∷ (model_of "v1.GroupVersionKind", meta_group_version_kind_schema)
    ∷ (model_of "v1.GroupVersionResource", meta_group_version_resource_schema)
    ∷ (model_of "v1.InternalEvent", meta_internal_event_schema)
    ∷ (model_of "v1.LabelSelector", meta_label_selector_schema)
    ∷ (model_of "v1.LabelSelectorRequirement", meta_label_selector_requirement_schema)
    ∷ (model_of "v1.List", meta_list_schema)
    ∷ (model_of "v1.ListMeta", meta_list_meta_schema)
    ∷ (model_of "v1.ListOptions", meta_list_options_schema)
    ∷ (model_of "v1.ManagedFieldsEntry", meta_managed_fields_entry_schema)
    ∷ (model_of "v1.MicroTime", meta_micro_time_schema)
    ∷ (model_of "v1.ObjectMeta", meta_object_meta_schema)
    ∷ (model_of "v1.OwnerReference", meta_owner_reference_schema)
    ∷ (model_of "v1.PartialObjectMetadata", meta_partial_object_metadata_schema)
    ∷ (model_of "v1.PartialObjectMetadataList", meta_partial_object_metadata_list_schema)
    ∷ (model_of "v1.Patch", meta_patch_schema)
    ∷ (model_of "v1.PatchOptions", meta_patch_options_schema)
    ∷ (model_of "v1.Preconditions", meta_preconditions_schema)
    ∷ (model_of "v1.RootPaths", meta_root_paths_schema)
    ∷ (model_of "v1.ServerAddressByClientCIDR", meta_server_address_by_client_cidr_schema)
    ∷ (model_of "v1.ShardInfo", meta_shard_info_schema)
    ∷ (model_of "v1.Status", meta_status_schema)
    ∷ (model_of "v1.StatusCause", meta_status_cause_schema)
    ∷ (model_of "v1.StatusDetails", meta_status_details_schema)
    ∷ (model_of "v1.Table", meta_table_schema)
    ∷ (model_of "v1.TableColumnDefinition", meta_table_column_definition_schema)
    ∷ (model_of "v1.TableOptions", meta_table_options_schema)
    ∷ (model_of "v1.TableRow", meta_table_row_schema)
    ∷ (model_of "v1.TableRowCondition", meta_table_row_condition_schema)
    ∷ (model_of "v1.Time", meta_time_schema)
    ∷ (model_of "v1.Timestamp", meta_timestamp_schema)
    ∷ (model_of "v1.TypeMeta", meta_type_meta_schema)
    ∷ (model_of "v1.UpdateOptions", meta_update_options_schema)
    ∷ (model_of "v1.WatchEvent", meta_watch_event_schema)
    ∷ (model_of "runtime.RawExtension", runtime_raw_extension_schema)
    ∷ (model_of "runtime.TypeMeta", runtime_type_meta_schema)
    ∷ (model_of "runtime.Unknown", runtime_unknown_schema)
    ∷ (model_of "version.Info", version_info_schema)
    ∷ []
