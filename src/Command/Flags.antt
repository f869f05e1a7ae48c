-- ===== src/Command/Flags.antt =====
-- The command line: AddFlags and NewCommand of cmd/simple-apiserver/server.go, and main.go. pflag and
-- cobra are parameters; the options that the flags point to are passed to their parser.
use simple_api_server.Prelude.{◌≡◌, ◌++◌, Bool, true, List, [], ◌∷◌, GoString, text}
use simple_api_server.ApiServer.Results.{Result, built, ◌>>=◌}
use simple_api_server.ApiServer.Scheme.{SchemeLibrary, init}
use simple_api_server.ApiServer.{GenericLibrary, ApiServer}
use simple_api_server.Command.{ServerLibrary, Options, new_options, run_e}

abbrev pub mode_flag : GoString
mode_flag = text "authorization-mode"

-- What the program does with a *pflag.FlagSet, and how cobra parses arguments with one before it
-- calls RunE.
pub record FlagLibrary (Groups Flags : Type 0) : Type 0 where
  -- The flags of a new cobra.Command.
  pub new_flags : Flags
  pub add_secure_serving : Groups → Flags → Flags
  pub add_authentication : Groups → Flags → Flags
  pub add_authorization : Groups → Flags → Flags
  pub add_audit : Groups → Flags → Flags
  pub add_features : Groups → Flags → Flags
  -- StringVar into AuthorizationMode: the name, the default and the usage.
  pub mode_var : GoString → GoString → GoString → Flags → Flags
  pub parse : Flags → List GoString → Options Groups → Result (Options Groups)

-- `--authorization-mode=value`
abbrev pub mode_argument : GoString → GoString
mode_argument value = text "--" ++ mode_flag ++ text "=" ++ value

-- The documented behaviour of pflag: no arguments set no flag, and `--name=value` as the only
-- argument sets the flag of that name to the value.
pub record FlagLaws (Groups Flags : Type 0) (flag_lib : FlagLibrary Groups Flags) : Type 0 where
  pub parse_nothing : (fs : Flags) (o : Options Groups) → flag_lib.parse fs [] o ≡ built o
  pub parse_mode :
      (default usage value : GoString) (fs : Flags) (o o' : Options Groups)
      → flag_lib.parse (flag_lib.mode_var mode_flag default usage fs) (mode_argument value ∷ []) o
        ≡ built o'
      → o'.authorization_mode ≡ value

-- cobra.Command with the fields that NewCommand sets. The options are those of its RunE and of its
-- flags.
pub record RootCommand (Groups Flags : Type 0) : Type 0 where
  pub name : GoString
  pub short : GoString
  pub long : GoString
  pub silence_usage : Bool
  pub flags : Flags
  pub options : Options Groups

abbrev usage : GoString
usage =
    text
      "Authorization mode. Empty (default) delegates to the host kube-apiserver via SubjectAccessReview. "
    ++ text
        "\"AlwaysAllow\" bypasses authz entirely and is intended for local development on a loopback bind only."

module _ {Groups S Rest RestV3 Config Flags : Type 0}
    (lib : ServerLibrary Groups S Rest RestV3 Config) (flag_lib : FlagLibrary Groups Flags) where
  -- AddFlags
  unfoldable pub add_flags : Options Groups → Flags → Flags
  add_flags o fs =
      let fs₁ = flag_lib.add_secure_serving o.groups fs in
      let fs₂ = flag_lib.add_authentication o.groups fs₁ in
      let fs₃ = flag_lib.add_authorization o.groups fs₂ in
      let fs₄ = flag_lib.add_audit o.groups fs₃ in
      let fs₅ = flag_lib.add_features o.groups fs₄ in
      flag_lib.mode_var mode_flag o.authorization_mode usage fs₅

  -- NewCommand
  unfoldable pub new_command : RootCommand Groups Flags
  unfolding add_flags
  new_command =
      let o = new_options lib in
      record {
        name = text "simple-apiserver";
        short = text "Aggregated apiserver serving tasks.example.com";
        long =
            text "Aggregated apiserver for the tasks.example.com/v1alpha1 API group.\n\n"
            ++ text "Storage is in-memory; server restart wipes all state. Watch is deferred\n"
            ++ text "and returns HTTP 405.";
        silence_usage = true;
        flags = add_flags o flag_lib.new_flags;
        options = o;
      }

  -- main, up to the call that serves and blocks: the init of the packages, the arguments, RunE.
  unfoldable pub main :
      {Completed Generic : Type 0}
      → GenericLibrary S Rest RestV3 Config Completed Generic
      → SchemeLibrary S
      → List GoString
      → Result (ApiServer Generic)
  unfolding init new_command run_e
  main generic scheme_lib args = do
    scheme ← init scheme_lib
    o ← flag_lib.parse new_command.flags args new_command.options
    run_e lib generic scheme o
