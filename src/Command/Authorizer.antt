-- ===== src/Command/Authorizer.antt =====
-- Which authorizer the server runs with: RunE of cmd/simple-apiserver/server.go.
use simple_api_server.Prelude.{
  ◌≡◌, refl, sym, subst, ap, ◌∙◌, ◌↔◌, ◌⊎◌, inl, inr, Bool-cases, List, [], ◌∷◌, ◌++◌, GoString,
  text, str_eq, str_eq_iff, arith,
}
use simple_api_server.ApiServer.Results.{
  Failure, built, wrap, >>=-eq-built, built-injective, wrap-eq-built,
}
use simple_api_server.Server.{ApiGroupInfo, tasks_group}
use simple_api_server.ApiServer
use simple_api_server.ApiServer.{GenericLibrary, ApiServer, server_name, install_tasks_group}
use simple_api_server.Command.{
  always_allow_mode, ServerLibrary, Options, mode_errors, new_aggregate, validate, complete,
  authorize, initial_config, config, run, run_e,
}

append-eq-nil : {A : Type 0} (xs ys : List A) → xs ++ ys ≡ [] → ys ≡ []
append-eq-nil [] ys h = h
append-eq-nil (x ∷ xs) ys h = cc

new_aggregate-eq-built :
    {Groups S Rest RestV3 Config : Type 0} (lib : ServerLibrary Groups S Rest RestV3 Config)
    (errs : List Failure)
    → new_aggregate lib errs ≡ built tt
    → errs ≡ []
new_aggregate-eq-built lib [] h = refl
new_aggregate-eq-built lib (e ∷ errs) h = cc

-- An aggregate that is nil has no error of the last group.
last-eq-nil :
    {Groups S Rest RestV3 Config : Type 0} (lib : ServerLibrary Groups S Rest RestV3 Config)
    (a b c d e m : List Failure)
    → new_aggregate lib (a ++ b ++ c ++ d ++ e ++ m) ≡ built tt
    → m ≡ []
last-eq-nil lib a b c d e m h =
    append-eq-nil (a ++ b ++ c ++ d ++ e) m
      (new_aggregate-eq-built lib (a ++ b ++ c ++ d ++ e ++ m) h)

-- A server in which the group of the Tasks was installed.
abbrev pub Serves :
    {S Rest RestV3 Config Completed Generic : Type 0}
    → GenericLibrary S Rest RestV3 Config Completed Generic
    → S
    → ApiServer Generic
    → Type 0
Serves {Generic} generic scheme server =
    (bare : Generic) × (generic.install_api_group scheme tasks_group bare
      ≡ built server.generic_api_server)

module _ {Groups S Rest RestV3 Config Completed Generic : Type 0}
    (lib : ServerLibrary Groups S Rest RestV3 Config)
    (generic : GenericLibrary S Rest RestV3 Config Completed Generic)
    (AlwaysAllows : Config → Type 0) (AllowsAll : Generic → Type 0) where
  -- The documented behaviour of the library: the authorizer is written by
  -- DelegatingAuthorizationOptions.ApplyTo, with one that asks the host, and by no other group; a
  -- server runs with the authorizer of the configuration that it is built from, and keeps it when a
  -- group is installed.
  pub record ServerLaws : Type 0 where
    pub always_allow : (c : Config) → AlwaysAllows (lib.set_always_allow c)
    pub delegates :
        (g : Groups) (c d : Config) → lib.apply_authorization g c ≡ built d → AlwaysAllows d → ⊥
    pub audit_keeps :
        (g : Groups) (c d : Config)
        → lib.apply_audit g c ≡ built d
        → AlwaysAllows c ↔ AlwaysAllows d
    pub features_keep :
        (g : Groups) (c d : Config)
        → lib.apply_features g c ≡ built d
        → AlwaysAllows c ↔ AlwaysAllows d
    pub runs_with :
        (name : GoString) (c : Config) (s : Generic)
        → generic.new name (generic.complete c) ≡ built s
        → AllowsAll s ↔ AlwaysAllows c
    pub install_keeps :
        (scheme : S) (info : ApiGroupInfo) (s t : Generic)
        → generic.install_api_group scheme info s ≡ built t
        → AllowsAll t ↔ AllowsAll s

  validate-mode :
      (o : Options Groups)
      → validate lib o ≡ built tt
      → (o.authorization_mode ≡ []) ⊎ (o.authorization_mode ≡ always_allow_mode)
  unfolding validate mode_errors
  validate-mode o h =
      let no_errors : mode_errors lib o.authorization_mode ≡ [] =
        last-eq-nil lib (lib.validate_secure_serving o.groups)
          (lib.validate_authentication o.groups) (lib.validate_authorization o.groups)
          (lib.validate_audit o.groups) (lib.validate_features o.groups)
          (mode_errors lib o.authorization_mode) h in
      ground (
        arith,
        str_eq_iff o.authorization_mode [],
        str_eq_iff o.authorization_mode always_allow_mode,
      )

  complete-mode :
      (o o' : Options Groups)
      → complete lib o ≡ built o'
      → o'.authorization_mode ≡ o.authorization_mode
  unfolding complete
  complete-mode o o' h =
      >>=-eq-built (lib.maybe_default_with_self_signed_certs o.groups) _ h
        λ groups _ h'. ap (λ (x : Options Groups). x.authorization_mode) (sym (built-injective h'))

  authorize-AlwaysAllows :
      ServerLaws
      → (o : Options Groups) (c d : Config) → authorize lib o c ≡ built d
      → AlwaysAllows d ↔ (o.authorization_mode ≡ always_allow_mode)
  unfolding authorize
  authorize-AlwaysAllows laws o c d h =
      elim (Bool-cases (str_eq o.authorization_mode always_allow_mode)) [
        | inl e ↦
            let made : lib.set_always_allow c ≡ d = built-injective (rw (e, authorize) at h) in
            (
              λ _. (str_eq_iff o.authorization_mode always_allow_mode).0 e,
              λ _. subst AlwaysAllows made (laws.always_allow c),
            )
        | inr e ↦
            let made = wrap-eq-built (text "authorization") _ d (rw (e, authorize) at h) in
            (
              λ allows. absurd (laws.delegates o.groups c d made allows),
              λ m. cc ((str_eq_iff o.authorization_mode always_allow_mode).1 m),
            )
      ]

  config-AlwaysAllows :
      ServerLaws
      → (scheme : S) (o : Options Groups) (c : ApiServer.Config Config)
      → config lib generic scheme o ≡ built c
      → AlwaysAllows c.generic_config ↔ (o.authorization_mode ≡ always_allow_mode)
  unfolding config
  config-AlwaysAllows laws scheme o c h =
      >>=-eq-built
        (wrap (text "secure serving")
          (lib.apply_secure_serving o.groups (initial_config lib generic scheme)))
        _ h
        λ c₁ _ h₁.
          >>=-eq-built (wrap (text "authentication") (lib.apply_authentication o.groups c₁)) _ h₁
            λ c₂ _ h₂. >>=-eq-built (authorize lib o c₂) _ h₂ λ c₃ e₃ h₃.
              >>=-eq-built (wrap (text "audit") (lib.apply_audit o.groups c₃)) _ h₃ λ c₄ e₄ h₄.
                >>=-eq-built (wrap (text "features") (lib.apply_features o.groups c₄)) _ h₄
                  λ c₅ e₅ h₅.
                    let audit =
                      laws.audit_keeps o.groups c₃ c₄ (wrap-eq-built (text "audit") _ c₄ e₄) in
                    let features =
                      laws.features_keep o.groups c₄ c₅ (wrap-eq-built (text "features") _ c₅ e₅) in
                    let authorized = authorize-AlwaysAllows laws o c₂ c₃ e₃ in
                    subst
                      (λ (d : ApiServer.Config Config).
                        AlwaysAllows d.generic_config ↔ (o.authorization_mode ≡ always_allow_mode))
                      (built-injective h₅)
                      (
                        λ allows. authorized.0 (audit.1 (features.1 allows)),
                        λ m. features.0 (audit.0 (authorized.1 m)),
                      )

  new-AllowsAll :
      ServerLaws
      → (scheme : S) (c : ApiServer.Config Config) (server : ApiServer Generic)
      → ApiServer.new generic scheme (ApiServer.complete generic scheme c) ≡ built server
      → (AllowsAll server.generic_api_server ↔ AlwaysAllows c.generic_config)
        × Serves generic scheme server
  unfolding ApiServer.new install_tasks_group
  new-AllowsAll laws scheme c server h =
      >>=-eq-built (generic.new server_name (generic.complete c.generic_config)) _ h λ bare e₁ h₁.
        >>=-eq-built (generic.install_api_group scheme tasks_group bare) _ h₁ λ full e₂ h₂.
          let same : full ≡ server.generic_api_server =
            ap (λ (x : ApiServer Generic). x.generic_api_server) (built-injective h₂) in
          let runs = laws.runs_with server_name c.generic_config bare e₁ in
          let keeps = laws.install_keeps scheme tasks_group bare full e₂ in
          (
            subst (λ g. AllowsAll g ↔ AlwaysAllows c.generic_config) same
                (λ a. runs.0 (keeps.0 a), λ a. keeps.1 (runs.1 a)),
            (bare, e₂ ∙ ap built same),
          )

  pub run_e-AlwaysAllows :
      ServerLaws
      → (scheme : S) (o : Options Groups) (server : ApiServer Generic)
      → run_e lib generic scheme o ≡ built server
      → ((o.authorization_mode ≡ []) ⊎ (o.authorization_mode ≡ always_allow_mode))
        × (AllowsAll server.generic_api_server ↔ (o.authorization_mode ≡ always_allow_mode))
        × Serves generic scheme server
  unfolding run_e complete run
  run_e-AlwaysAllows laws scheme o server h = >>=-eq-built (complete lib o) _ h λ o' e₀ h₀.
      >>=-eq-built (validate lib o') _ h₀ λ _ e₁ h₁.
        >>=-eq-built (config lib generic scheme o') _ h₁ λ c e₂ h₂.
          let same : o'.authorization_mode ≡ o.authorization_mode = complete-mode o o' e₀ in
          let (from, serves) = new-AllowsAll laws scheme c server h₂ in
          let allowed = config-AlwaysAllows laws scheme o' c e₂ in
          (
            subst (λ m. (m ≡ []) ⊎ (m ≡ always_allow_mode)) same (validate-mode o' e₁),
            subst (λ m. AllowsAll server.generic_api_server ↔ (m ≡ always_allow_mode)) same
                (λ a. allowed.0 (from.0 a), λ m. from.1 (allowed.1 m)),
            serves,
          )
