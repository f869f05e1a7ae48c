-- ===== src/Server/Serving.antt =====
-- The server from its start: what any number of clients can do to the one store.
use simple_api_server.Prelude.{ℕ, ◌≤◌, ◌<◌, refl, List, GoString, length, arith}
use simple_api_server.Prelude.Decimal.{uint64_mod}
use simple_api_server.Rest.{Library}
use simple_api_server.Store.Invariant.{IsValid, new-IsValid}
use simple_api_server.Handler.{Order}
use simple_api_server.Handler.Interleaving.{System, interleave, interleave-IsValid}
use simple_api_server.Server.{Request, Response, serve, tasks_group}

module _ {Ctx : Type 0} (lib : Library Ctx) (order : Order) where
  -- The server just started, with a request for each thread: a version, a resource, the request.
  abbrev pub started : (ℕ → GoString × GoString × Request Ctx) → System Response
  started requests = record {
    store = tasks_group.store;
    threads = λ i.
        let (version, path, request) = requests i in serve lib tasks_group version path request;
  }

  -- From the start of the server, whatever requests reach whatever resource of the group, on the Tasks
  -- and on their status, and however their calls of the store interleave: the store holds no key
  -- twice and no version twice, and its counter is at most the number of calls. The calls are
  -- assumed to be fewer than 2 ^ 64.
  pub started-IsValid :
      (requests : ℕ → GoString × GoString × Request Ctx) (schedule : List ℕ)
      → length schedule < uint64_mod
      → IsValid (interleave order schedule (started requests)).store
        × ((interleave order schedule (started requests)).store.rv ≤ length schedule)
  unfolding tasks_group
  started-IsValid requests schedule h =
      let (valid, _, high) =
        interleave-IsValid order schedule (started requests)
          (new-IsValid tasks_group.store refl (omega arith)) (omega arith) in
      (valid, omega (arith, high))
