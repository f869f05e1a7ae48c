-- ===== src/Kube/Meta.antt =====
-- The k8s.io structs that the program reads and writes, with the fields that it uses.
use simple_api_server.Prelude.{GoString, List, ℕ, Option}

-- A Go slice: nil and an empty slice are two values with the same elements.
pub data Slice {ℓ} (A : Type ℓ) : Type ℓ where
  nil : Slice A
  slice : List A → Slice A

-- The elements that `range` and `len` see.
abbrev pub elements {ℓ} : {A : Type ℓ} → Slice A → List A
elements nil = List.[]
elements (slice xs) = xs

pub record GroupResource : Type 0 where
  pub group : GoString
  pub resource : GoString

-- An int64 is its bit pattern, below 2 ^ 64; a uint64 is the number itself.
pub record ObjectMeta : Type 0 where
  pub name : GoString
  pub namespace : GoString
  pub uid : GoString
  pub resource_version : GoString
  pub generation : ℕ  -- int64
  pub creation_timestamp : ℕ
  pub labels : List (GoString × GoString)

pub record TypeMeta : Type 0 where
  pub kind : GoString
  pub api_version : GoString

pub record Condition : Type 0 where
  pub condition_type : GoString
  pub status : GoString
  pub observed_generation : ℕ  -- int64
  pub last_transition_time : ℕ
  pub reason : GoString
  pub message : GoString

-- metav1.Preconditions: a nil pointer states no precondition.
pub record Preconditions : Type 0 where
  pub uid : Option GoString
  pub resource_version : Option GoString
