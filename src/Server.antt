-- ===== src/Server.antt =====
-- installTasksGroup of pkg/apiserver/apiserver.go: one store behind the two storages of the group,
-- and the requests that reach them. Which methods a storage has is what its type implements; the
-- library has no route for the others.
pub mod Serving
pub mod Progress
pub mod Filing
pub mod Listing
use simple_api_server.Prelude.{
  Bool, List, [], ◌∷◌, Option, none, some, GoString, text, str_eq, if◌then◌else◌,
}
use simple_api_server.Kube.{GroupResource, library_error}
use simple_api_server.Kube.Outcome.{ok, err}
use simple_api_server.Api.{Object, group_name, scheme_group_version, resource}
use simple_api_server.Rest.{
  Library, UpdatedObjectInfo, ValidateObjectFunc, ValidateObjectUpdateFunc,
}
use simple_api_server.Store
use simple_api_server.Store.{Store}
use simple_api_server.Handler.{Handler, done, ◌>>=◌}
use simple_api_server.Registry
use simple_api_server.Registry.Checks.{ListOptions}
use simple_api_server.Registry.Accept.{DeleteOptions}

-- *REST and *StatusREST. The store that both share is in ApiGroupInfo.
pub data Storage : Type 0 where
  rest_storage : GroupResource → Storage
  status_storage : GroupResource → Storage

pub record ApiGroupInfo : Type 0 where
  pub name : GoString
  -- VersionedResourcesStorageMap
  pub storages : List (GoString × List (GoString × Storage))
  pub store : Store

-- installTasksGroup up to InstallAPIGroup
unfoldable pub tasks_group : ApiGroupInfo
tasks_group =
    let gr = resource (text "tasks") in
    let storage : List (GoString × Storage) =
      (text "tasks", rest_storage gr) ∷ (text "tasks/status", status_storage gr) ∷ [] in
    record {
      name = group_name;
      storages = (scheme_group_version.version, storage) ∷ [];
      store = Store.new gr;
    }

-- A request, after the library has decoded it.
pub data Request (Ctx : Type 0) : Type 0 where
  get : Ctx → GoString → Request Ctx
  list : Ctx → Option ListOptions → Request Ctx
  create : Ctx → Object → ValidateObjectFunc Ctx → Request Ctx
  update :
      Ctx
      → GoString
      → UpdatedObjectInfo Ctx
      → ValidateObjectFunc Ctx
      → ValidateObjectUpdateFunc Ctx
      → Bool
      → Request Ctx
  delete : Ctx → GoString → ValidateObjectFunc Ctx → Option DeleteOptions → Request Ctx
  watch : Ctx → Request Ctx

-- The object of the response, and whether it was created or deleted, where the method says so.
pub data Response : Type 0 where
  object : Object → Response
  written : Object → Bool → Response

abbrev respond : Handler Object → Handler Response
respond h = h >>= λ o. done (ok (object o))

abbrev respond_written : Handler (Object × Bool) → Handler Response
respond_written h = h >>= λ (o, flag). done (ok (written o flag))

-- `storage["tasks"]`, with a Boolean test of the key.
unfoldable pub find {ℓ} : {A : Type ℓ} → GoString → List (GoString × A) → Option A
find key [] = none
find key ((k, a) ∷ l) = if str_eq k key then some a else find key l

abbrev no_route : Handler Response
no_route = done (err (library_error (text "no route")))

module _ {Ctx : Type 0} (lib : Library Ctx) where
  unfoldable pub route : Storage → Request Ctx → Handler Response
  route (rest_storage gr) (get ctx name) = respond (Registry.get lib gr ctx name)
  route (rest_storage gr) (list ctx options) = respond (Registry.list lib gr ctx options)
  route (rest_storage gr) (create ctx obj cv) = respond (Registry.create lib gr ctx obj cv)
  route (rest_storage gr) (update ctx name info cv uv force) =
      respond_written (Registry.update lib gr ctx name info cv uv force)
  route (rest_storage gr) (delete ctx name dv options) =
      respond_written (Registry.delete lib gr ctx name dv options)
  route (rest_storage gr) (watch ctx) = respond (Registry.watch lib gr ctx)
  route (status_storage gr) (get ctx name) = respond (Registry.get_status lib gr ctx name)
  route (status_storage gr) (update ctx name info cv uv force) =
      respond_written (Registry.update_status lib gr ctx name info cv uv force)
  route (status_storage gr) _ = no_route

  -- A request to a version and a resource of the group.
  unfoldable pub serve : ApiGroupInfo → GoString → GoString → Request Ctx → Handler Response
  unfolding find route
  serve info version path request = elim (find version info.storages) [
    | none ↦ no_route
    | some storages ↦ elim (find path storages) [
      | none ↦ no_route
      | some storage ↦ route storage request
    ]
  ]
