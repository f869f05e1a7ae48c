-- ===== src/Handler/Interleaving.antt =====
-- Goroutines that serve requests at the same time: any number of handlers over one store, their
-- calls of the store in any order.
use simple_api_server.Prelude.{ℕ, ◌+◌, ◌≤◌, ◌<◌, List, [], ◌∷◌, arith, ◌==◌, if◌then◌else◌, length}
use simple_api_server.Prelude.Decimal.{uint64_mod}
use simple_api_server.Store.{Store}
use simple_api_server.Store.Invariant.{IsValid}
use simple_api_server.Store.Refinement.Traces.{perform-IsValid, rv-perform}
use simple_api_server.Handler.{Handler, done, call, list, current_resource_version, Order, step}

pub record System (A : Type 0) : Type 0 where
  pub store : Store
  pub threads : ℕ → Handler A

module _ {A : Type 0} where
  abbrev pub set_thread : (ℕ → Handler A) → ℕ → Handler A → ℕ → Handler A
  set_thread threads i h j = if i == j then h else threads j

  module _ (order : Order) where
    -- Thread `i` makes its next call.
    unfoldable pub turn : ℕ → System A → System A
    turn i sys =
        let (h, s) = step order (sys.threads i) sys.store in
        record { store = s; threads = set_thread sys.threads i h }

    unfoldable pub interleave : List ℕ → System A → System A
    unfolding turn
    interleave [] sys = sys
    interleave (i ∷ schedule) sys = interleave schedule (turn i sys)

    step-IsValid :
        (h : Handler A) (s : Store)
        → IsValid s
        → s.rv + 1 < uint64_mod
        → IsValid (step order h s).1
          × (s.rv ≤ (step order h s).1.rv)
          × ((step order h s).1.rv ≤ s.rv + 1)
    unfolding step
    step-IsValid (done r) s v h = (v, omega arith, omega arith)
    step-IsValid (call c k) s v h =
        let (low, high) = rv-perform c s h in (perform-IsValid c s v h, low, high)
    step-IsValid (list ns k) s v h = (v, omega arith, omega arith)
    step-IsValid (current_resource_version k) s v h = (v, omega arith, omega arith)

    -- Whatever the handlers and the order of their calls, a valid store keeps its invariant and its
    -- counter never falls, as long as the counter has room for one version for each call.
    pub interleave-IsValid :
        (schedule : List ℕ) (sys : System A)
        → IsValid sys.store
        → sys.store.rv + length schedule < uint64_mod
        → IsValid (interleave schedule sys).store
          × (sys.store.rv ≤ (interleave schedule sys).store.rv)
          × ((interleave schedule sys).store.rv ≤ sys.store.rv + length schedule)
    unfolding interleave turn
    interleave-IsValid [] sys v h = (v, omega arith, omega arith)
    interleave-IsValid (i ∷ schedule) sys v h =
        let (v', low, high) = step-IsValid (sys.threads i) sys.store v (omega arith) in
        let (w, low', high') = interleave-IsValid schedule (turn i sys) v' (omega arith) in
        (w, omega arith, omega arith)
