-- ===== src/ApiServer.antt =====
-- pkg/apiserver/apiserver.go: the server of k8s.io/apiserver with the group of the Tasks. The
-- configuration and the server of the library are parameters; a pointer that a method writes through
-- is a result.
pub mod Results
pub mod Scheme
use simple_api_server.Prelude.{List, GoString, text}
use simple_api_server.Api.{scheme_group_version}
use simple_api_server.Server.{ApiGroupInfo, tasks_group}
use simple_api_server.OpenApi.Schema.{ModelName, Definition}
use simple_api_server.OpenApi.Definitions.{get_openapi_definitions}
use Results.{Result, built, failed, panicked, ◌>>=◌}

abbrev pub server_name : GoString
server_name = text "simple-apiserver"

-- The fields of the two OpenAPI configurations that the program sets, and the others.
pub record OpenApiConfig (Rest : Type 0) : Type 0 where
  pub title : GoString
  pub version : GoString
  pub rest : Rest

pub record Config (Recommended : Type 0) : Type 0 where
  pub generic_config : Recommended
  pub extra_config : Unit {0}

pub record CompletedConfig (Completed : Type 0) : Type 0 where
  pub generic_config : Completed
  pub extra_config : Unit {0}

pub record ApiServer (Generic : Type 0) : Type 0 where
  pub generic_api_server : Generic

-- k8s.io/apiserver/pkg/server.
pub record GenericLibrary (S Rest RestV3 Recommended Completed Generic : Type 0) : Type 0 where
  pub default_open_api_config : List (ModelName × Definition) → S → OpenApiConfig Rest
  pub default_open_api_v3_config : List (ModelName × Definition) → S → OpenApiConfig RestV3
  -- RecommendedConfig.Complete
  pub complete : Recommended → Completed
  -- CompletedConfig.New of the library, with NewEmptyDelegate.
  pub new : GoString → Completed → Result Generic
  -- InstallAPIGroup, with what NewDefaultAPIGroupInfo takes from the scheme.
  pub install_api_group : S → ApiGroupInfo → Generic → Result Generic

module _ {S Rest RestV3 Recommended Completed Generic : Type 0}
    (lib : GenericLibrary S Rest RestV3 Recommended Completed Generic) (scheme : S) where
  -- (*Config).Complete
  abbrev pub complete : Config Recommended → CompletedConfig Completed
  complete c = record {
    generic_config = lib.complete c.generic_config;
    extra_config = c.extra_config;
  }

  -- (*APIServer).installTasksGroup
  unfoldable pub install_tasks_group : ApiServer Generic → Result (ApiServer Generic)
  install_tasks_group s = do
    installed ← lib.install_api_group scheme tasks_group s.generic_api_server
    built (record { generic_api_server = installed })

  -- CompletedConfig.New
  unfoldable pub new : CompletedConfig Completed → Result (ApiServer Generic)
  unfolding install_tasks_group
  new c = do
    generic_server ← lib.new server_name c.generic_config
    install_tasks_group (record { generic_api_server = generic_server })

  -- DefaultOpenAPIConfig
  unfoldable pub default_open_api_config : OpenApiConfig Rest
  default_open_api_config = record (lib.default_open_api_config get_openapi_definitions scheme) {
    title = server_name;
    version = scheme_group_version.version;
  }

  -- DefaultOpenAPIV3Config
  unfoldable pub default_open_api_v3_config : OpenApiConfig RestV3
  default_open_api_v3_config =
      record (lib.default_open_api_v3_config get_openapi_definitions scheme) {
        title = server_name;
        version = scheme_group_version.version;
      }
