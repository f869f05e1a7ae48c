-- ===== src/ApiServer/Scheme.antt =====
-- The scheme of the program: addKnownTypes of pkg/apis/tasks/v1alpha1/register.go, Install of
-- pkg/apis/tasks/install/install.go and init of pkg/apiserver/apiserver.go. runtime.Scheme is a
-- parameter; types are given by their names.
use simple_api_server.Prelude.{List, [], ◌∷◌, GoString, text}
use simple_api_server.Api.{GroupVersion, scheme_group_version}
use simple_api_server.ApiServer.Results.{Result, built, ◌>>=◌, must}

pub record SchemeLibrary (S : Type 0) : Type 0 where
  pub new_scheme : S
  pub add_known_types : GroupVersion → List GoString → S → S
  -- metav1.AddToGroupVersion
  pub add_to_group_version : GroupVersion → S → S
  pub set_version_priority : GroupVersion → S → Result S
  pub add_unversioned_types : GroupVersion → List GoString → S → S

abbrev unversioned : GroupVersion
unversioned = record { group = []; version = text "v1" }

module _ {S : Type 0} (lib : SchemeLibrary S) where
  -- addKnownTypes, the one function behind AddToScheme.
  unfoldable pub add_known_types : S → Result S
  add_known_types scheme = built (
      lib.add_to_group_version scheme_group_version
        (lib.add_known_types scheme_group_version (text "Task" ∷ text "TaskList" ∷ []) scheme))

  unfoldable pub install : S → Result S
  unfolding add_known_types
  install scheme = do
    known ← must (add_known_types scheme)
    must (lib.set_version_priority scheme_group_version known)

  -- init, from the empty scheme.
  unfoldable pub init : Result S
  unfolding install
  init = do
    installed ← install lib.new_scheme
    built (
        lib.add_unversioned_types unversioned
          (text "Status"
            ∷ text "APIVersions"
            ∷ text "APIGroupList"
            ∷ text "APIGroup"
            ∷ text "APIResourceList"
            ∷ [])
          (lib.add_to_group_version unversioned installed))
