-- ===== src/Examples/Certs.antt =====
-- The theorems about gen-certs, with a toy library: keys are numbers, a certificate names its keys.
use simple_api_server.Prelude.{
  ℕ, ◌+◌, ◌≡◌, ◌≢◌, refl, true, none, [], ◌∷◌, ◌++◌, GoString, text, str_eq,
}
use simple_api_server.GenCerts.Effects.{ok, fatal, Machine, Faults, take}
use simple_api_server.GenCerts.{main}
use simple_api_server.GenCerts.Types.{
  Certificate, CertLibrary, Flags, nothing_to_do, wrote, cert_paths, default_dns_sans, set_all,
}
use simple_api_server.GenCerts.Issued.{Issued, cert_pem, key_pem}
use simple_api_server.GenCerts.Files.{Holds}
use simple_api_server.GenCerts.Runs.{main_wrote, main_again}
use simple_api_server.GenCerts.Interrupted.{full_at, main_interrupted}

abbrev blank : Certificate ℕ (Unit {0})
blank = record {
  serial_number = 0;
  common_name = [];
  not_before = 0;
  not_after = 0;
  is_ca = true;
  key_usage = [];
  ext_key_usage = [];
  basic_constraints_valid = true;
  dns_names = [];
  rest = tt;
}

abbrev toy : CertLibrary ℕ ℕ (Unit {0}) ℕ ℕ
toy = record {
  generate_key = λ e. (ok e, e + 1);
  public_key = λ k. k + 100;
  random_int = λ max e. (ok e, e + 1);
  now = λ e. (e, e + 1);
  add = λ t d. t;
  create_certificate = λ template parent public signer e. (ok (public ∷ signer ∷ []), e + 1);
  parse_certificate = λ der. ok blank;
  marshal_ec_private_key = λ k. ok (k ∷ []);
  pem_encode = λ b. b.kind ++ b.bytes;
  unset = tt;
}

abbrev healthy : Faults
healthy = record { mkdir_error = λ _. none; open_error = λ _. none; write_error = λ _. none }

abbrev flags : Flags
flags = record { out = text "certs"; valid_for = 3600000000000; dns_sans = text "localhost" ∷ [] }

abbrev empty : Machine ℕ
empty = record { files = λ _. none; env = 1 }

-- What the first run leaves.
abbrev filled : Machine ℕ
unfolding main str_eq
filled = (main toy healthy flags empty).1

runs : main toy healthy flags empty ≡ (ok wrote, filled)
unfolding main str_eq
runs = refl

main_wrote_example :
    let p = cert_paths flags.out in
    (c : Issued toy (set_all default_dns_sans flags.dns_sans)) × Holds filled p.ca_crt
      (cert_pem toy c.certs.ca_der)
    × Holds filled p.ca_key (key_pem toy c.ca_key_der)
    × Holds filled p.tls_crt (cert_pem toy c.certs.leaf_der)
    × Holds filled p.tls_key (key_pem toy c.leaf_key_der)
    × ((q : GoString)
        → p.ca_crt ≢ q
        → p.ca_key ≢ q
        → p.tls_crt ≢ q
        → p.tls_key ≢ q
        → filled.files q ≡ empty.files q)
main_wrote_example = main_wrote toy healthy flags empty filled runs

main_again_example : main toy healthy flags filled ≡ (ok nothing_to_do, filled)
main_again_example = main_again toy healthy healthy flags flags empty filled wrote runs refl refl

main_interrupted_example :
    let path = (cert_paths flags.out).tls_key in
    let (r, u) = main toy (full_at path 3 (text "no space left on device")) flags empty in
    (r
      ≡ fatal (
          text "generate: "
          ++ (text "write " ++ (path ++ (text ": " ++ text "no space left on device")))))
    × ((c : Issued toy (set_all default_dns_sans flags.dns_sans)) × Holds u path
          (take 3 (key_pem toy c.leaf_key_der)))
    × (main toy healthy flags u ≡ (ok nothing_to_do, u))
main_interrupted_example =
    main_interrupted toy healthy healthy flags flags empty filled 3 (text "no space left on device")
      runs refl refl
