-- ===== src/ApiServer/Results.antt =====
-- Results of the code that builds the server: errors with what wraps them, and panics.
use simple_api_server.Prelude.{◌≡◌, refl, List, GoString}

pub data Failure : Type 0 where
  -- --authorization-mode is neither empty nor "AlwaysAllow"
  unsupported_mode : GoString → Failure
  library_failure : GoString → Failure

pub data RunError : Type 0 where
  failure : Failure → RunError
  -- utilerrors.NewAggregate
  aggregate : List Failure → RunError
  -- fmt.Errorf("apply ...: %w", err)
  apply_error : GoString → RunError → RunError

pub data Result (A : Type 0) : Type 0 where
  built : A → Result A
  failed : RunError → Result A
  panicked : RunError → Result A

infixl 5 ◌>>=◌ ◌>>◌
abbrev pub ◌>>=◌ : {A B : Type 0} → Result A → (A → Result B) → Result B
built a >>= f = f a
failed e >>= f = failed e
panicked e >>= f = panicked e

abbrev pub ◌>>◌ : {B : Type 0} → Result (Unit {0}) → Result B → Result B
m >> k = m >>= λ _. k

-- The error of a step, wrapped.
unfoldable pub wrap : {A : Type 0} → GoString → Result A → Result A
wrap what (built a) = built a
wrap what (failed e) = failed (apply_error what e)
wrap what (panicked e) = panicked e

-- utilruntime.Must
abbrev pub must : {A : Type 0} → Result A → Result A
must (built a) = built a
must (failed e) = panicked e
must (panicked e) = panicked e

-- What went before a result was a result.
pub >>=-eq-built :
    {A B C : Type 0} (m : Result A) (f : A → Result B) {b : B}
    → (m >>= f) ≡ built b
    → ((a : A) → m ≡ built a → f a ≡ built b → C)
    → C
>>=-eq-built (built a) f h rest = rest a refl h
>>=-eq-built (failed errs) f h rest = cc
>>=-eq-built (panicked e) f h rest = cc

pub built-injective : {A : Type 0} {a b : A} → built a ≡ built b → a ≡ b
built-injective h = cc

pub wrap-eq-built :
    {A : Type 0} (what : GoString) (r : Result A) (a : A) → wrap what r ≡ built a → r ≡ built a
unfolding wrap
wrap-eq-built what (built b) a h = h
wrap-eq-built what (failed e) a h = cc
wrap-eq-built what (panicked e) a h = cc
