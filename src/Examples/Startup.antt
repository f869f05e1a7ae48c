-- ===== src/Examples/Startup.antt =====
-- The theorems about the command and the started server, with small option groups.
use mathlib.Core.List.{Memᴰ}
use mathlib.Core.List.Permᴰ
use simple_api_server.Prelude.{
  ◌≢◌, some, ℕ, zero, suc, ◌≤◌, ◌≡◌, ◌↔◌, ◌⊎◌, refl, sym, ◌∙◌, Bool, true, false, List, [], ◌∷◌, ap,
  GoString, text, arith, str_eq, none,
}
use simple_api_server.ApiServer.Results.{built, built-injective}
use simple_api_server.ApiServer.Scheme.{SchemeLibrary, init}
use simple_api_server.ApiServer.{GenericLibrary, ApiServer}
use simple_api_server.Command.{ServerLibrary, Options, always_allow_mode}
use simple_api_server.Command.Flags.{FlagLibrary, FlagLaws, mode_argument, main}
use simple_api_server.Command.Main.{main-AlwaysAllows, the_mode}
use simple_api_server.Command.Authorizer.{ServerLaws, Serves}
use simple_api_server.Store.{Key, lookup}
use simple_api_server.Store.Listing.{InNamespace}
use simple_api_server.Handler.Interleaving.{interleave}
use simple_api_server.Kube.Outcome.{Outcome, ok}
use simple_api_server.Handler.{done, run}
use simple_api_server.Server.{Request, Response, tasks_group}
use simple_api_server.Server.Progress.{serve-interleave}
use simple_api_server.Server.Filing.{started-IsFiled}
use simple_api_server.Server.Listing.{started-list}
use simple_api_server.Registry
use simple_api_server.Registry.Checks.{selector_of}
use simple_api_server.Registry.ListTasks.Answer.{list_of}
use simple_api_server.Handler.Keeping.{Holds}
use simple_api_server.Registry.Filed.{IsFiled}
use simple_api_server.Api.{Task, task}
use simple_api_server.Server.Serving.{started}
use simple_api_server.Examples.Fixture.{Ctx, library, library-LibraryLaws}
use simple_api_server.Examples.Data.{tasks, map_order, team, job, puts, new_image}

-- A configuration is whether its authorizer allows everything, a server its configuration.
abbrev groups : ServerLibrary (Unit {0}) (Unit {0}) (Unit {0}) (Unit {0}) Bool
groups = record {
  new_groups = tt;
  set_bind_port = λ _ g. g;
  tolerate_missing_kube_config = λ g. g;
  set_priority_and_fairness = λ _ g. g;
  maybe_default_with_self_signed_certs = λ g. built g;
  validate_secure_serving = λ _. [];
  validate_authentication = λ _. [];
  validate_authorization = λ _. [];
  validate_audit = λ _. [];
  validate_features = λ _. [];
  new_recommended_config = λ _. false;
  set_open_api_config = λ _ c. c;
  set_open_api_v3_config = λ _ c. c;
  set_effective_version = λ c. c;
  apply_secure_serving = λ _ c. built c;
  apply_authentication = λ _ c. built c;
  apply_authorization = λ _ c. built false;
  apply_audit = λ _ c. built c;
  apply_features = λ _ c. built c;
  set_always_allow = λ _. true;
}

abbrev generic : GenericLibrary (Unit {0}) (Unit {0}) (Unit {0}) Bool Bool Bool
generic = record {
  default_open_api_config = λ _ _. record { title = []; version = []; rest = tt };
  default_open_api_v3_config = λ _ _. record { title = []; version = []; rest = tt };
  complete = λ c. c;
  new = λ _ c. built c;
  install_api_group = λ _ _ s. built s;
}

abbrev no_scheme : SchemeLibrary (Unit {0})
no_scheme = record {
  new_scheme = tt;
  add_known_types = λ _ _ s. s;
  add_to_group_version = λ _ s. s;
  set_version_priority = λ _ s. built s;
  add_unversioned_types = λ _ _ s. s;
}

abbrev Allows : Bool → Type 0
Allows c = c ≡ true

same_config : (c d : Bool) → built c ≡ built d → Allows c ↔ Allows d
same_config c d h = (λ a. sym (built-injective h) ∙ a, λ a. built-injective h ∙ a)

groups-ServerLaws : ServerLaws groups generic Allows Allows
groups-ServerLaws = record {
  always_allow = λ _. refl;
  delegates = λ _ c d h a. cc (built-injective h);
  audit_keeps = λ _. same_config;
  features_keep = λ _. same_config;
  runs_with = λ _ c s h. same_config s c (sym h);
  install_keeps = λ _ _ s t h. same_config t s (sym h);
}

after : GoString → GoString → GoString
after [] s = s
after (_ ∷ _) [] = []
after (_ ∷ cs) (_ ∷ s) = after cs s

-- The one flag is that of the authorization mode.
abbrev flags : FlagLibrary (Unit {0}) (Unit {0})
flags = record {
  new_flags = tt;
  add_secure_serving = λ _ fs. fs;
  add_authentication = λ _ fs. fs;
  add_authorization = λ _ fs. fs;
  add_audit = λ _ fs. fs;
  add_features = λ _ fs. fs;
  mode_var = λ _ _ _ fs. fs;
  parse = λ _ args o. elim args [
    | [] ↦ built o
    | a ∷ _ ↦ built (record o { authorization_mode = after (mode_argument []) a })
  ];
}

flags-FlagLaws : FlagLaws (Unit {0}) (Unit {0}) flags
unfolding after
flags-FlagLaws = record {
  parse_nothing = λ _ _. refl;
  parse_mode = λ _ _ value _ o o' h.
      sym (ap (λ (x : Options (Unit {0})). x.authorization_mode) (built-injective h));
}

abbrev development : List GoString
development = text "--authorization-mode=AlwaysAllow" ∷ []

abbrev open_server : ApiServer Bool
open_server = record { generic_api_server = true }

development_runs : main groups flags generic no_scheme development ≡ built open_server
unfolding main after str_eq
development_runs = refl

default_runs :
    main groups flags generic no_scheme [] ≡ built (record { generic_api_server = false })
unfolding main str_eq
default_runs = refl

main-AlwaysAllows_example :
    ((always_allow_mode ≡ []) ⊎ (always_allow_mode ≡ always_allow_mode))
    × ((true ≡ true) ↔ (always_allow_mode ≡ always_allow_mode))
    × ((scheme : Unit {0}) × (init no_scheme ≡ built scheme) × Serves generic scheme open_server)
main-AlwaysAllows_example =
    main-AlwaysAllows groups flags generic Allows Allows groups-ServerLaws flags-FlagLaws no_scheme
      development always_allow_mode open_server (the_mode always_allow_mode) development_runs

-- Each client updates a Task or its status.
abbrev requests : ℕ → GoString × GoString × Request Ctx
requests i =
    (text "v1alpha1", text "tasks", Request.update team job (puts new_image) none none false)

-- The second client has its two turns.
serve-interleave_example :
    (r : Outcome Response) × ((interleave map_order
          (0 ∷ 1 ∷ 0 ∷ 1 ∷ [])
          (started library map_order requests)).threads
        1
      ≡ done r)
serve-interleave_example =
    serve-interleave library map_order tasks_group (text "v1alpha1") (text "tasks")
      (Request.update team job (puts new_image) none none false)
      (started library map_order requests) 1 (0 ∷ 1 ∷ 0 ∷ 1 ∷ []) refl (omega arith)

-- One client creates a Task that the others update.
abbrev clients : ℕ → GoString × GoString × Request Ctx
clients zero = (text "v1alpha1", text "tasks", Request.create team (task new_image) none)
clients (suc _) =
    (text "v1alpha1", text "tasks/status", Request.update team job (puts new_image) none none false)

started-IsFiled_example :
    Holds IsFiled
      (interleave map_order (0 ∷ 1 ∷ 2 ∷ 1 ∷ 2 ∷ []) (started library map_order clients)).store
started-IsFiled_example =
    started-IsFiled library library-LibraryLaws map_order clients (0 ∷ 1 ∷ 2 ∷ 1 ∷ 2 ∷ [])

started-list_example :
    let schedule : List ℕ = 0 ∷ 1 ∷ 2 ∷ 1 ∷ 2 ∷ [] in
    let s = (interleave map_order schedule (started library map_order clients)).store in
    let namespace = (library.namespace_from team).0 in
    (items : List Task) × (version : ℕ) × (run map_order (Registry.list library tasks team none) s
      ≡ (ok (list_of items version), s))
    × ((t : Task)
        → Memᴰ t items ↔ (
            (k : Key) × InNamespace namespace k
            × (lookup k s.items ≡ some (task t))
            × (selector_of library.everything none t.object_meta.labels ≡ true)))
    × ((t : Task)
        → Memᴰ t items
        → (t.spec.image ≢ []) × ((namespace ≡ []) ⊎ (t.object_meta.namespace ≡ namespace)))
    × (version ≤ 5)
started-list_example =
    started-list library map_order library-LibraryLaws (λ m. Permᴰ.refl m) clients
      (0 ∷ 1 ∷ 2 ∷ 1 ∷ 2 ∷ []) tasks team none (omega arith) refl
