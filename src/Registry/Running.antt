-- ===== src/Registry/Running.antt =====
-- How a handler runs with the store to itself: lemmas for the proofs about the handlers.
use simple_api_server.Prelude.{◌≡◌, refl}
use simple_api_server.Kube.Outcome.{Outcome, ok, err, panic}
use simple_api_server.Store.{Store}
use simple_api_server.Handler.{Handler, done, Order, run, ◌>>=◌}

module _ {A B : Type 0} (order : Order) (f : A → Handler B) (s : Store) where
  -- What went before an `ok` was an `ok`.
  pub run-bind-eq-ok :
      (m : Outcome A) {b : B} {t : Store}
      → run order (done m >>= f) s ≡ (ok b, t)
      → (a : A) × (m ≡ ok a) × (run order (f a) s ≡ (ok b, t))
  unfolding run
  run-bind-eq-ok (ok a) h = (a, refl, h)
  run-bind-eq-ok (err e) h = cc
  run-bind-eq-ok panic h = cc
