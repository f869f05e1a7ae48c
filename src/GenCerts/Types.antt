-- ===== src/GenCerts/Types.antt =====
-- What hack/gen-certs/main.go reads and makes: the flags, the certificates, the paths of the files.
use simple_api_server.Prelude.{
  ℕ, ◌+◌, ◌-◌, ◌*◌, ◌^◌, Bool, true, false, ◌&&◌, Option, none, some, List, [], ◌∷◌, ◌++◌, GoString,
  text,
}
use simple_api_server.GenCerts.Effects.{Result, ok, panic, File}

-- x509.Certificate: the fields that the tool sets, and the others.
pub record Certificate (Time Rest : Type 0) : Type 0 where
  pub serial_number : ℕ
  pub common_name : GoString
  pub not_before : Time
  pub not_after : Time
  pub is_ca : Bool
  pub key_usage : List GoString
  pub ext_key_usage : List GoString
  pub basic_constraints_valid : Bool
  pub dns_names : List GoString
  pub rest : Rest

-- pem.Block
pub record Block : Type 0 where
  pub kind : GoString
  pub bytes : GoString

-- crypto/ecdsa, crypto/rand, crypto/x509, encoding/pem and time.
pub record CertLibrary (Env Time Rest Key PublicKey : Type 0) : Type 0 where
  pub generate_key : Env → Result Key × Env
  pub public_key : Key → PublicKey
  pub random_int : ℕ → Env → Result ℕ × Env
  pub now : Env → Time × Env
  -- Time.Add; a Duration is an int64 as a bit pattern.
  pub add : Time → ℕ → Time
  pub create_certificate :
      Certificate Time Rest → Certificate Time Rest → PublicKey → Key → Env → Result GoString × Env
  pub parse_certificate : GoString → Result (Certificate Time Rest)
  pub marshal_ec_private_key : Key → Result GoString
  pub pem_encode : Block → GoString
  -- The zero value of the other fields.
  pub unset : Rest

pub record CertFiles : Type 0 where
  pub ca_crt : GoString
  pub ca_key : GoString
  pub tls_crt : GoString
  pub tls_key : GoString

abbrev pub join : GoString → GoString → GoString
join dir name = dir ++ (text "/" ++ name)

unfoldable pub cert_paths : GoString → CertFiles
cert_paths dir = record {
  ca_crt = join dir (text "ca.crt");
  ca_key = join dir (text "ca.key");
  tls_crt = join dir (text "tls.crt");
  tls_key = join dir (text "tls.key");
}

abbrev pub is_some {ℓ} : {A : Type ℓ} → Option A → Bool
is_some none = false
is_some (some _) = true

-- os.Stat of a file that is there succeeds.
unfoldable pub all_exist : CertFiles → (GoString → Option File) → Bool
all_exist p files =
    is_some (files p.ca_crt)
    && is_some (files p.ca_key)
    && is_some (files p.tls_crt)
    && is_some (files p.tls_key)

-- stringSlice.Set
abbrev pub set : List GoString → GoString → List GoString
set s v = s ++ (v ∷ [])

abbrev pub default_dns_sans : List GoString
default_dns_sans =
    text "simple-apiserver"
    ∷ text "simple-apiserver.simple-apiserver"
    ∷ text "simple-apiserver.simple-apiserver.svc"
    ∷ text "simple-apiserver.simple-apiserver.svc.cluster.local"
    ∷ []

-- The command line: -out, -valid-for and each -dns-san.
pub record Flags : Type 0 where
  pub out : GoString
  pub valid_for : ℕ
  pub dns_sans : List GoString

abbrev pub set_all : List GoString → List GoString → List GoString
set_all s [] = s
set_all s (v ∷ vs) = set_all (set s v) vs

-- `dnsSANs[0]`
abbrev pub first : List GoString → Result GoString
first [] = panic
first (x ∷ _) = ok x

-- `-1 * time.Hour`
abbrev pub minus_one_hour : ℕ
minus_one_hour = 2 ^ 64 - 3600000000000

-- How a run ends that does not fail.
pub data Done : Type 0 where
  nothing_to_do : Done
  wrote : Done

-- 0o644 and 0o600
abbrev pub mode_644 : ℕ
mode_644 = (6 * 8 + 4) * 8 + 4

abbrev pub mode_600 : ℕ
mode_600 = 6 * 8 * 8
