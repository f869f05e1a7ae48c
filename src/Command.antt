-- ===== src/Command.antt =====
-- cmd/simple-apiserver/server.go: from the options to a running server. The option groups, the
-- configuration and the server of k8s.io/apiserver are parameters; a pointer that a method writes
-- through is a result.
pub mod Authorizer
pub mod Flags
pub mod Main
use simple_api_server.ApiServer.Results.{
  Failure, unsupported_mode, aggregate, Result, built, failed, ◌>>=◌, ◌>>◌, wrap,
}
use simple_api_server.ApiServer
use simple_api_server.ApiServer.{OpenApiConfig, GenericLibrary, ApiServer}
use simple_api_server.Prelude.{
  ℕ, Bool, true, false, ◌||◌, List, [], ◌∷◌, ◌++◌, GoString, text, str_eq, if◌then◌else◌,
}

abbrev pub always_allow_mode : GoString
always_allow_mode = text "AlwaysAllow"

-- The groups of k8s.io/apiserver/pkg/server/options, as one value, and what the program does with
-- them.
pub record ServerLibrary (Groups S Rest RestV3 Config : Type 0) : Type 0 where
  -- The constructors, and the fields that NewOptions sets.
  pub new_groups : Groups
  pub set_bind_port : ℕ → Groups → Groups
  pub tolerate_missing_kube_config : Groups → Groups
  pub set_priority_and_fairness : Bool → Groups → Groups
  pub maybe_default_with_self_signed_certs : Groups → Result Groups
  pub validate_secure_serving : Groups → List Failure
  pub validate_authentication : Groups → List Failure
  pub validate_authorization : Groups → List Failure
  pub validate_audit : Groups → List Failure
  pub validate_features : Groups → List Failure
  -- NewRecommendedConfig, and the fields of it that Config sets.
  pub new_recommended_config : S → Config
  pub set_open_api_config : OpenApiConfig Rest → Config → Config
  pub set_open_api_v3_config : OpenApiConfig RestV3 → Config → Config
  -- EffectiveVersion = DefaultBuildEffectiveVersion()
  pub set_effective_version : Config → Config
  pub apply_secure_serving : Groups → Config → Result Config
  pub apply_authentication : Groups → Config → Result Config
  pub apply_authorization : Groups → Config → Result Config
  pub apply_audit : Groups → Config → Result Config
  pub apply_features : Groups → Config → Result Config
  -- Authorizer = NewAlwaysAllowAuthorizer()
  pub set_always_allow : Config → Config

pub record Options (Groups : Type 0) : Type 0 where
  pub groups : Groups
  pub authorization_mode : GoString

module _ {Groups S Rest RestV3 Config : Type 0}
    (lib : ServerLibrary Groups S Rest RestV3 Config) where
  abbrev pub new_options : Options Groups
  new_options = record {
    groups =
        lib.set_priority_and_fairness false
          (lib.tolerate_missing_kube_config (lib.set_bind_port 6443 lib.new_groups));
    authorization_mode = [];
  }

  -- The `switch` of Validate.
  unfoldable pub mode_errors : GoString → List Failure
  mode_errors mode =
      if str_eq mode [] || str_eq mode always_allow_mode then [] else unsupported_mode mode ∷ []

  -- NewAggregate is nil for no errors.
  abbrev pub new_aggregate : List Failure → Result (Unit {0})
  new_aggregate [] = built tt
  new_aggregate (e ∷ errs) = failed (aggregate (e ∷ errs))

  unfoldable pub validate : Options Groups → Result (Unit {0})
  unfolding mode_errors
  validate o = new_aggregate (
      lib.validate_secure_serving o.groups
      ++ lib.validate_authentication o.groups
      ++ lib.validate_authorization o.groups
      ++ lib.validate_audit o.groups
      ++ lib.validate_features o.groups
      ++ mode_errors o.authorization_mode)

  unfoldable pub complete : Options Groups → Result (Options Groups)
  complete o = do
    groups ← lib.maybe_default_with_self_signed_certs o.groups
    built (record o { groups = groups })

  -- The `switch` of Config.
  unfoldable pub authorize : Options Groups → Config → Result Config
  unfolding wrap
  authorize o c =
      if str_eq o.authorization_mode always_allow_mode
      then built (lib.set_always_allow c)
      else wrap (text "authorization") (lib.apply_authorization o.groups c)

  module _ {Completed Generic : Type 0}
      (generic : GenericLibrary S Rest RestV3 Config Completed Generic) where
    -- The configuration that the option groups are applied to.
    unfoldable pub initial_config : S → Config
    unfolding ApiServer.default_open_api_config ApiServer.default_open_api_v3_config
    initial_config scheme = lib.set_effective_version (
        lib.set_open_api_v3_config (ApiServer.default_open_api_v3_config generic scheme) (
          lib.set_open_api_config (ApiServer.default_open_api_config generic scheme)
            (lib.new_recommended_config scheme)))

    unfoldable pub config : S → Options Groups → Result (ApiServer.Config Config)
    unfolding wrap authorize initial_config
    config scheme o = do
      c₁ ← wrap (text "secure serving") (lib.apply_secure_serving o.groups (initial_config scheme))
      c₂ ← wrap (text "authentication") (lib.apply_authentication o.groups c₁)
      c₃ ← authorize o c₂
      c₄ ← wrap (text "audit") (lib.apply_audit o.groups c₃)
      c₅ ← wrap (text "features") (lib.apply_features o.groups c₄)
      built (record { generic_config = c₅; extra_config = tt })

    -- Run up to the call that serves and blocks.
    unfoldable pub run : S → Options Groups → Result (ApiServer Generic)
    unfolding config ApiServer.new
    run scheme o = do
      c ← config scheme o
      ApiServer.new generic scheme (ApiServer.complete generic scheme c)

    -- RunE of NewCommand.
    unfoldable pub run_e : S → Options Groups → Result (ApiServer Generic)
    unfolding complete validate run
    run_e scheme o = do completed ← complete o; validate completed; run scheme completed
