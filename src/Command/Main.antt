-- ===== src/Command/Main.antt =====
-- The server that the command line of cmd/simple-apiserver asks for.
use simple_api_server.Prelude.{◌≡◌, sym, subst, ap, ◌∙◌, ◌↔◌, ◌⊎◌, List, [], ◌∷◌, GoString}
use simple_api_server.ApiServer.Results.{built, built-injective, >>=-eq-built}
use simple_api_server.ApiServer.Scheme.{SchemeLibrary, init}
use simple_api_server.ApiServer.{GenericLibrary, ApiServer}
use simple_api_server.Command.{always_allow_mode, ServerLibrary, Options}
use simple_api_server.Command.Authorizer.{ServerLaws, Serves, run_e-AlwaysAllows}
use simple_api_server.Command.Flags.{
  mode_argument, FlagLibrary, FlagLaws, new_command, add_flags, main,
}

-- The authorization mode that arguments ask for: none without arguments.
pub data Asks : List GoString → GoString → Type 0 where
  nothing : Asks [] []
  the_mode : (value : GoString) → Asks (mode_argument value ∷ []) value

module _ {Groups S Rest RestV3 Config Flags : Type 0}
    (lib : ServerLibrary Groups S Rest RestV3 Config) (flag_lib : FlagLibrary Groups Flags) where
  parse-Asks :
      FlagLaws Groups Flags flag_lib
      → (args : List GoString) (mode : GoString) → Asks args mode
      → (o : Options Groups)
      → flag_lib.parse (new_command lib flag_lib).flags args (new_command lib flag_lib).options
        ≡ built o
      → o.authorization_mode ≡ mode
  unfolding new_command add_flags
  parse-Asks laws [] mode nothing o h =
      ap (λ (x : Options Groups). x.authorization_mode)
        (built-injective (sym h ∙ laws.parse_nothing _ _))
  parse-Asks laws args mode (the_mode value) o h = laws.parse_mode _ _ value _ _ o h

  -- With libraries that behave as documented: a process without arguments, or with an authorization
  -- mode as its only argument, that gets as far as serving has no authorization mode or AlwaysAllow.
  -- Its server lets every request pass exactly if the mode is AlwaysAllow, and the server is one in
  -- which the group of the Tasks was installed with the scheme that the packages have set up.
  pub main-AlwaysAllows :
      {Completed Generic : Type 0} (generic : GenericLibrary S Rest RestV3 Config Completed Generic)
      (AlwaysAllows : Config → Type 0) (AllowsAll : Generic → Type 0)
      → ServerLaws lib generic AlwaysAllows AllowsAll
      → FlagLaws Groups Flags flag_lib
      → (scheme_lib : SchemeLibrary S) (args : List GoString) (mode : GoString)
        (server : ApiServer Generic)
      → Asks args mode
      → main lib flag_lib generic scheme_lib args ≡ built server
      → ((mode ≡ []) ⊎ (mode ≡ always_allow_mode))
        × (AllowsAll server.generic_api_server ↔ (mode ≡ always_allow_mode))
        × ((scheme : S) × (init scheme_lib ≡ built scheme) × Serves generic scheme server)
  unfolding main
  main-AlwaysAllows generic AlwaysAllows AllowsAll laws flag_laws scheme_lib args mode server asks
        h =
      >>=-eq-built (init scheme_lib) _ h λ scheme e h₁.
        >>=-eq-built
          (flag_lib.parse (new_command lib flag_lib).flags args (new_command lib flag_lib).options)
          _ h₁
          λ o e' h₂.
            let (allowed, iff, serves) =
              run_e-AlwaysAllows lib generic AlwaysAllows AllowsAll laws scheme o server h₂ in
            let same : o.authorization_mode ≡ mode = parse-Asks flag_laws args mode asks o e' in
            (
              subst (λ m. (m ≡ []) ⊎ (m ≡ always_allow_mode)) same allowed,
              subst (λ m. AllowsAll server.generic_api_server ↔ (m ≡ always_allow_mode)) same iff,
              (scheme, e, serves),
            )
