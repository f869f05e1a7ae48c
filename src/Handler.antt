-- ===== src/Handler.antt =====
-- A request handler, as the goroutine that serves one request runs it: Go code between calls of the
-- store. The store's mutex makes each call one atomic step; between two calls of a handler, other
-- goroutines may call the store.
pub mod Interleaving
pub mod Progress
pub mod Keeping
pub mod Held
use simple_api_server.Prelude.{ℕ, List, GoString}
use simple_api_server.Kube.Errors.{ApiError}
use simple_api_server.Kube.Outcome.{Outcome, ok, err, panic}
use simple_api_server.Api.{Object}
use simple_api_server.Store
use simple_api_server.Store.{Key, Store}
use simple_api_server.Store.Calls.{Call, perform}

pub data Handler (A : Type 0) : Type 0 where
  done : Outcome A → Handler A
  call : Call → (Outcome Object → Handler A) → Handler A
  list : GoString → (List Object → Handler A) → Handler A
  current_resource_version : (ℕ → Handler A) → Handler A

infixl 5 ◌>>=◌ ◌>>◌
abbrev pub ◌>>=◌ : {A B : Type 0} → Handler A → (A → Handler B) → Handler B
done (ok a) >>= f = f a
done (err e) >>= f = done (err e)
done panic >>= f = done panic
call c k >>= f = call c (λ r. k r >>= f)
list ns k >>= f = list ns (λ l. k l >>= f)
current_resource_version k >>= f = current_resource_version (λ n. k n >>= f)

abbrev pub ◌>>◌ : {B : Type 0} → Handler (Unit {0}) → Handler B → Handler B
m >> k = m >>= λ _. k

-- A call whose error the handler looks at, and one whose error it returns.
abbrev pub attempt : Call → Handler (Outcome Object)
attempt c = call c (λ r. done (ok r))

abbrev pub request : Call → Handler Object
request c = call c done

-- The order in which `range` walks the map of the store.
abbrev pub Order : Type 0
Order = List (Key × Object) → List (Key × Object)

module _ {A : Type 0} (order : Order) where
  -- One call of the store, and the code up to the next.
  unfoldable pub step : Handler A → Store → Handler A × Store
  step (done r) s = (done r, s)
  step (call c k) s = (k (perform c s).0, (perform c s).1)
  step (list ns k) s = (k (Store.list order ns s), s)
  step (current_resource_version k) s = (k (Store.current_resource_version s), s)

  -- The handler with the store to itself.
  unfoldable pub run : Handler A → Store → Outcome A × Store
  run (done r) s = (r, s)
  run (call c k) s = run (k (perform c s).0) (perform c s).1
  run (list ns k) s = run (k (Store.list order ns s)) s
  run (current_resource_version k) s = run (k (Store.current_resource_version s)) s
