-- ===== src/GenCerts/Effects.antt =====
-- What hack/gen-certs/main.go runs on: files, and calls of the system that may fail. A fault holds for
-- one run of the tool.
use simple_api_server.Prelude.{
  ℕ, zero, suc, Option, none, some, List, [], ◌∷◌, ◌++◌, GoString, str_eq, text, if◌then◌else◌,
}

-- A Go `error` as its text, the end of the process by log.Fatal, or a panic.
pub data Result (A : Type 0) : Type 0 where
  ok : A → Result A
  err : GoString → Result A
  fatal : GoString → Result A
  panic : Result A

-- fmt.Errorf("<context>: %w", err)
abbrev pub wrap : {A : Type 0} → GoString → Result A → Result A
wrap context (ok a) = ok a
wrap context (err e) = err (context ++ text ": " ++ e)
wrap context (fatal e) = fatal e
wrap context panic = panic

pub record File : Type 0 where
  pub bytes : GoString
  pub mode : ℕ

-- The files by path; `env` is all else that a run changes, such as the clock and the entropy.
pub record Machine (Env : Type 0) : Type 0 where
  pub files : GoString → Option File
  pub env : Env

pub record Faults : Type 0 where
  pub mkdir_error : GoString → Option GoString
  pub open_error : GoString → Option GoString
  -- How many bytes are written before the error.
  pub write_error : GoString → Option (ℕ × GoString)

abbrev pub Action : Type 0 → Type 0 → Type 0
Action Env A = Machine Env → Result A × Machine Env

module _ {Env A B : Type 0} where
  abbrev pub after : Result A × Machine Env → (A → Action Env B) → Result B × Machine Env
  after (ok a, s) f = f a s
  after (err e, s) f = (err e, s)
  after (fatal e, s) f = (fatal e, s)
  after (panic, s) f = (panic, s)

  infixl 5 ◌>>=◌
  abbrev pub ◌>>=◌ : Action Env A → (A → Action Env B) → Action Env B
  ◌>>=◌ m f s = after (m s) f

module _ {Env A : Type 0} where
  infixl 5 ◌>>◌
  abbrev pub ◌>>◌ : Action Env (Unit {0}) → Action Env A → Action Env A
  m >> k = m >>= λ _. k

  abbrev pub return : Result A → Action Env A
  return r s = (r, s)

  -- A call that reads and changes the environment.
  abbrev pub on_env : (Env → Result A × Env) → Action Env A
  on_env f s = ((f s.env).0, record s { env = (f s.env).1 })

  abbrev pub wrapped : GoString → Action Env A → Action Env A
  wrapped context m s = (wrap context (m s).0, (m s).1)

-- O_CREATE gives its mode to a file that is not there yet.
abbrev pub mode_of : Option File → ℕ → ℕ
mode_of none mode = mode
mode_of (some f) mode = f.mode

module _ {Env : Type 0} where
  abbrev pub set_file : GoString → File → Machine Env → Machine Env
  set_file path file s = record s { files = λ q. if str_eq path q then some file else s.files q }

  -- os.OpenFile with O_WRONLY|O_CREATE|O_TRUNC, and what is then written.
  abbrev pub write_file : GoString → ℕ → GoString → Machine Env → Machine Env
  write_file path mode bytes s =
      set_file path (record { bytes = bytes; mode = mode_of (s.files path) mode }) s

abbrev pub take {ℓ} : {A : Type ℓ} → ℕ → List A → List A
take zero xs = []
take (suc n) [] = []
take (suc n) (x ∷ xs) = x ∷ take n xs
