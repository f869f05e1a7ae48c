-- ===== src/Kube/Outcome.antt =====
-- The result of a Go function that may return an error or panic.
use simple_api_server.Kube.Errors.{ApiError}
use simple_api_server.Prelude.{◌≡◌, refl, Option, none, some}

pub data Outcome {ℓ} (A : Type ℓ) : Type ℓ where
  ok : A → Outcome A
  err : ApiError → Outcome A
  panic : Outcome A

infixl 5 ◌>>=◌ ◌>>◌
abbrev pub ◌>>=◌ {ℓ κ} : {A : Type ℓ} {B : Type κ} → Outcome A → (A → Outcome B) → Outcome B
ok a >>= f = f a
err e >>= f = err e
panic >>= f = panic

abbrev pub ◌>>◌ {ℓ} : {B : Type ℓ} → Outcome (Unit {0}) → Outcome B → Outcome B
m >> k = m >>= λ _. k

-- A function that returns a bare `error`.
abbrev pub check_error : Option ApiError → Outcome (Unit {0})
check_error none = ok tt
check_error (some e) = err e

pub ok-injective {ℓ} : {A : Type ℓ} {a b : A} → ok a ≡ ok b → a ≡ b
ok-injective h = cc

-- What went before an `ok` was an `ok`. The rest of the proof is the last argument.
pub >>=-eq-ok {ℓ κ λ'} :
    {A : Type ℓ} {B : Type κ} {C : Type λ'} (m : Outcome A) (f : A → Outcome B) {b : B}
    → (m >>= f) ≡ ok b
    → ((a : A) → m ≡ ok a → f a ≡ ok b → C)
    → C
>>=-eq-ok (ok a) f h rest = rest a refl h
>>=-eq-ok (err e) f h rest = cc
>>=-eq-ok panic f h rest = cc
