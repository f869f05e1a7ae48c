-- ===== src/Server/Listing.antt =====
-- What List answers on a server, from its start: (*REST).List of pkg/registry/tasks/task/storage.go over
-- what the other handlers have stored.
use mathlib.Core.List.{Memᴰ, Permᴰ}
use simple_api_server.Prelude.{
  ℕ, ◌<◌, ◌≤◌, ◌≡◌, ◌≢◌, ◌↔◌, ◌⊎◌, inl, inr, [], arith, sym, subst, ap, ◌∙◌, false, true, some,
  Option, List, GoString, length,
}
use simple_api_server.Prelude.Decimal.{uint64_mod}
use simple_api_server.Kube.{GroupResource}
use simple_api_server.Kube.Outcome.{ok}
use simple_api_server.Api.{Task, Object, task}
use simple_api_server.Rest.{Library}
use simple_api_server.Rest.Laws.{LibraryLaws}
use simple_api_server.Store.{Key, lookup}
use simple_api_server.Store.Listing.{InNamespace}
use simple_api_server.Handler.{Order, run}
use simple_api_server.Handler.Interleaving.{interleave}
use simple_api_server.Registry
use simple_api_server.Registry.Checks.{ListOptions, has_field_selector, selector_of}
use simple_api_server.Registry.ListTasks.{task-injective}
use simple_api_server.Registry.ListTasks.Answer.{list_of, list_lem}
use simple_api_server.Server.{Request}
use simple_api_server.Server.Filing.{started-IsFiled}
use simple_api_server.Server.Serving.{started, started-IsValid}

-- With a library that behaves as documented: from the start of the server, after whatever requests to
-- whatever resource of the group and however their calls of the store interleave, fewer than 2 ^ 64 of
-- them, a List without a field selector succeeds, in whatever order the map is walked, and leaves
-- the store as it is. Its items are exactly the stored Tasks under keys of the namespace of the
-- request, or under all keys for the empty namespace, that match the selector; each has an image, and
-- the namespace of the request unless that is empty; and the version of the list is at most the
-- number of the calls before.
pub started-list :
    {Ctx : Type 0} (lib : Library Ctx) (order : Order)
    → LibraryLaws lib
    → ((m : List (Key × Object)) → Permᴰ (order m) m)
    → (requests : ℕ → GoString × GoString × Request Ctx) (schedule : List ℕ) (gr : GroupResource)
      (ctx : Ctx) (options : Option ListOptions)
    → length schedule < uint64_mod
    → has_field_selector options ≡ false
    → let s = (interleave order schedule (started lib order requests)).store in
      let namespace = (lib.namespace_from ctx).0 in
      (items : List Task) × (version : ℕ) × (run order (Registry.list lib gr ctx options) s
        ≡ (ok (list_of items version), s))
      × ((t : Task)
          → Memᴰ t items ↔ (
              (k : Key) × InNamespace namespace k
              × (lookup k s.items ≡ some (task t))
              × (selector_of lib.everything options t.object_meta.labels ≡ true)))
      × ((t : Task)
          → Memᴰ t items
          → (t.spec.image ≢ []) × ((namespace ≡ []) ⊎ (t.object_meta.namespace ≡ namespace)))
      × (version ≤ length schedule)
started-list lib order laws shuffles requests schedule gr ctx options short plain =
    let s = (interleave order schedule (started lib order requests)).store in
    let namespace = (lib.namespace_from ctx).0 in
    let (valid, high) = started-IsValid lib order requests schedule short in
    let filed = started-IsFiled lib laws order requests schedule in
    let (items, version, runs, exact, _, most, _) =
      list_lem lib order gr ctx options s shuffles valid
        (λ k o e. let f = filed.each k o e in (f.body, f.is_task)) plain in
    (
      items,
      version,
      runs,
      exact,
      λ t m.
          let (k, i, e, _) = (exact t).0 m in
          let f = filed.each k (task t) e in
          let same : f.body ≡ t = sym (task-injective f.is_task) in
          (
            subst (λ (x : Task). x.spec.image ≢ []) same f.has_image,
            elim i [
              | inl all ↦ inl all
              | inr here ↦
                  inr
                    (ap (λ (x : Task). x.object_meta.namespace) (sym same) ∙ f.in_namespace ∙ here)
            ],
          ),
      omega (arith, most, high),
    )
