-- ===== src/Handler/Progress.antt =====
-- How often a handler calls the store before it ends, whatever the calls return.
use simple_api_server.Prelude.{
  ℕ, zero, suc, ◌+◌, ◌≤◌, ◌≡◌, refl, inl, inr, Bool, true, false, List, [], ◌∷◌, GoString,
  Bool-cases, ==_iff, subst, sym, arith, ◌==◌, if◌then◌else◌,
}
use simple_api_server.Kube.Outcome.{Outcome, ok, err, panic}
use simple_api_server.Api.{Object}
use simple_api_server.Store.{Store}
use simple_api_server.Store.Calls.{Call}
use simple_api_server.Handler.{
  Handler, done, call, list, current_resource_version, ◌>>=◌, Order, step,
}
use simple_api_server.Handler.Interleaving.{System, turn, interleave}

module _ {A : Type 0} where
  -- The handler ends after at most so many calls of the store.
  abbrev pub EndsIn : ℕ → Handler A → Type 0
  EndsIn n (done r) = Unit
  EndsIn zero (call c k) = ⊥
  EndsIn (suc n) (call c k) = (r : Outcome Object) → EndsIn n (k r)
  EndsIn zero (list ns k) = ⊥
  EndsIn (suc n) (list ns k) = (l : List Object) → EndsIn n (k l)
  EndsIn zero (current_resource_version k) = ⊥
  EndsIn (suc n) (current_resource_version k) = (v : ℕ) → EndsIn n (k v)

  -- The same, shut for the rules below.
  pub record Ends (n : ℕ) (h : Handler A) : Type 0 where
    pub within : EndsIn n h

  pub done-Ends : (n : ℕ) (r : Outcome A) → Ends n (done r)
  done-Ends n r = record { within = tt }

  pub if-Ends :
      (n : ℕ) (b : Bool) (g h : Handler A) → Ends n g → Ends n h → Ends n (if b then g else h)
  if-Ends n true g h p q = p
  if-Ends n false g h p q = q

  pub call-Ends :
      (n : ℕ) (c : Call) (k : Outcome Object → Handler A)
      → ((r : Outcome Object) → Ends n (k r))
      → Ends (suc n) (call c k)
  call-Ends n c k p = record { within = λ r. (p r).within }

  pub list-Ends :
      (n : ℕ) (ns : GoString) (k : List Object → Handler A)
      → ((l : List Object) → Ends n (k l))
      → Ends (suc n) (list ns k)
  list-Ends n ns k p = record { within = λ l. (p l).within }

  pub current-Ends :
      (n : ℕ) (k : ℕ → Handler A)
      → ((v : ℕ) → Ends n (k v))
      → Ends (suc n) (current_resource_version k)
  current-Ends n k p = record { within = λ v. (p v).within }

module _ {A B : Type 0} where
  pub bind-Ends :
      (n : ℕ) (m : Outcome A) (f : A → Handler B) → ((a : A) → Ends n (f a)) → Ends n (done m >>= f)
  bind-Ends n (ok a) f p = p a
  bind-Ends n (err e) f p = done-Ends n (err e)
  bind-Ends n panic f p = done-Ends n panic

  EndsIn-then :
      (n : ℕ) (h : Handler A) (g : A → Outcome B) → EndsIn n h → EndsIn n (h >>= λ a. done (g a))
  EndsIn-then n (done (ok a)) g p = tt
  EndsIn-then n (done (err e)) g p = tt
  EndsIn-then n (done panic) g p = tt
  EndsIn-then zero (call c k) g p = p
  EndsIn-then (suc n) (call c k) g p = λ r. EndsIn-then n (k r) g (p r)
  EndsIn-then zero (list ns k) g p = p
  EndsIn-then (suc n) (list ns k) g p = λ l. EndsIn-then n (k l) g (p l)
  EndsIn-then zero (current_resource_version k) g p = p
  EndsIn-then (suc n) (current_resource_version k) g p = λ v. EndsIn-then n (k v) g (p v)

  pub then-Ends :
      (n : ℕ) (h : Handler A) (g : A → Outcome B) → Ends n h → Ends n (h >>= λ a. done (g a))
  then-Ends n h g p = record { within = EndsIn-then n h g p.within }

-- A call that ends the handler.
pub write-Ends :
    {A : Type 0} (n : ℕ) (c : Call) (g : Object → A)
    → Ends (suc n) (call c (λ r. done r >>= λ o. done (ok (g o))))
write-Ends n c g =
    call-Ends n c (λ r. done r >>= λ o. done (ok (g o)))
      (λ r. bind-Ends n r (λ o. done (ok (g o))) (λ o. done-Ends n (ok (g o))))

pub ruleset ends_rules =
    (done-Ends, if-Ends, call-Ends, list-Ends, current-Ends, bind-Ends, write-Ends)

-- How often a thread has its turn.
abbrev pub turns : ℕ → List ℕ → ℕ
turns i [] = 0
turns i (j ∷ schedule) = if j == i then turns i schedule + 1 else turns i schedule

module _ {A : Type 0} (order : Order) where
  step-EndsIn : (n : ℕ) (h : Handler A) (s : Store) → EndsIn (suc n) h → EndsIn n (step order h s).0
  unfolding step
  step-EndsIn n (done r) s p = tt
  step-EndsIn n (call c k) s p = p _
  step-EndsIn n (list ns k) s p = p _
  step-EndsIn n (current_resource_version k) s p = p _

  EndsIn-zero : (h : Handler A) → EndsIn 0 h → (r : Outcome A) × (h ≡ done r)
  EndsIn-zero (done r) p = (r, refl)
  EndsIn-zero (call c k) p = absurd p
  EndsIn-zero (list ns k) p = absurd p
  EndsIn-zero (current_resource_version k) p = absurd p

  step-EndsIn_zero : (h : Handler A) (s : Store) → EndsIn 0 h → EndsIn 0 (step order h s).0
  unfolding step
  step-EndsIn_zero (done r) s p = tt
  step-EndsIn_zero (call c k) s p = absurd p
  step-EndsIn_zero (list ns k) s p = absurd p
  step-EndsIn_zero (current_resource_version k) s p = absurd p

  has_turn :
      (j i : ℕ) (sys : System A) (n : ℕ)
      → j == i ≡ true
      → EndsIn n (sys.threads i)
      → EndsIn n (sys.threads j)
  has_turn j i sys n e p = subst (λ x. EndsIn n (sys.threads x)) (sym ((==_iff j i).0 e)) p

  -- A thread that has had as many turns as it needs has ended, whatever the others did meanwhile.
  pub interleave-ends :
      (schedule : List ℕ) (sys : System A) (i n : ℕ)
      → EndsIn n (sys.threads i)
      → n ≤ turns i schedule
      → (r : Outcome A) × ((interleave order schedule sys).threads i ≡ done r)
  unfolding interleave turn
  interleave-ends [] sys i zero p h = EndsIn-zero (sys.threads i) p
  interleave-ends [] sys i (suc n) p h = absurd (omega arith)
  interleave-ends (j ∷ schedule) sys i zero p h = elim (Bool-cases (j == i)) [
    | inl e ↦
        interleave-ends schedule (turn order j sys) i 0
          (rw e (step-EndsIn_zero (sys.threads j) sys.store (has_turn j i sys 0 e p))) (omega arith)
    | inr e ↦ interleave-ends schedule (turn order j sys) i 0 (rw e p) (omega arith)
  ]
  interleave-ends (j ∷ schedule) sys i (suc n) p h = elim (Bool-cases (j == i)) [
    | inl e ↦
        interleave-ends schedule (turn order j sys) i n
          (rw e (step-EndsIn n (sys.threads j) sys.store (has_turn j i sys (suc n) e p)))
          (ground arith)
    | inr e ↦ interleave-ends schedule (turn order j sys) i (suc n) (rw e p) (ground arith)
  ]
