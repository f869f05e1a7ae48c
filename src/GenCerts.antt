-- ===== src/GenCerts.antt =====
-- hack/gen-certs/main.go: the tool that makes a certificate authority and a serving certificate.
--
-- The cryptography, the clock and PEM are parameters. filepath.Join is written for a directory whose
-- path is clean already. Log lines are left out, but for what the tool ends with.
pub mod Effects
pub mod Types
pub mod Steps
pub mod Issued
pub mod Generated
pub mod Files
pub mod Runs
pub mod Interrupted
use simple_api_server.Prelude.{
  ℕ, ◌+◌, ◌-◌, ◌*◌, ◌^◌, Bool, true, false, ◌&&◌, Option, none, some, List, [], ◌∷◌, ◌++◌, GoString,
  text, str_eq, if◌then◌else◌,
}
use Effects.{
  Result, ok, err, fatal, panic, File, Machine, Faults, Action, ◌>>=◌, ◌>>◌, return, on_env,
  wrapped, write_file, take,
}
use Types.{
  Certificate, Block, CertLibrary, CertFiles, join, cert_paths, is_some, all_exist, set,
  default_dns_sans, Flags, set_all, first, minus_one_hour, Done, nothing_to_do, wrote, mode_644,
  mode_600,
}

-- `log.Fatalf("<context>%v", err)`
abbrev pub fatal_error : {A : Type 0} → GoString → Result A → Result A
fatal_error context (ok a) = ok a
fatal_error context (err e) = fatal (context ++ e)
fatal_error context (fatal e) = fatal e
fatal_error context panic = panic

-- The end of main: `log.Fatalf("generate: %v", err)` or success.
abbrev pub finish {ℓ} : {M : Type ℓ} → Result (Unit {0}) × M → Result Done × M
finish (ok _, s) = (ok wrote, s)
finish (err e, s) = (fatal (text "generate: " ++ e), s)
finish (fatal e, s) = (fatal e, s)
finish (panic, s) = (panic, s)

module _ {Env Time Rest Key PublicKey : Type 0}
    (lib : CertLibrary Env Time Rest Key PublicKey) where
  unfoldable pub serial : Action Env ℕ
  serial s =
      let (r, s') = on_env (lib.random_int (2 ^ 128)) s in (fatal_error (text "serial: ") r, s')

  -- `time.Now().Add(d)`
  abbrev pub now_plus : ℕ → Action Env Time
  now_plus d = on_env (λ e. let (t, e') = lib.now e in (ok (lib.add t d), e'))

  unfoldable pub ca_template : ℕ → Action Env (Certificate Time Rest)
  unfolding serial
  ca_template valid_for = do
    n ← serial
    not_before ← now_plus minus_one_hour
    not_after ← now_plus valid_for
    return (
        ok (record {
          serial_number = n;
          common_name = text "simple-apiserver-e2e-ca";
          not_before = not_before;
          not_after = not_after;
          is_ca = true;
          key_usage = text "CertSign" ∷ text "CRLSign" ∷ text "DigitalSignature" ∷ [];
          ext_key_usage = [];
          basic_constraints_valid = true;
          dns_names = [];
          rest = lib.unset;
        }))

  unfoldable pub leaf_template : ℕ → List GoString → Action Env (Certificate Time Rest)
  unfolding serial
  leaf_template valid_for dns_sans = do
    n ← serial
    common_name ← return (first dns_sans)
    not_before ← now_plus minus_one_hour
    not_after ← now_plus valid_for
    return (
        ok (record {
          serial_number = n;
          common_name = common_name;
          not_before = not_before;
          not_after = not_after;
          is_ca = false;
          key_usage = text "DigitalSignature" ∷ text "KeyEncipherment" ∷ [];
          ext_key_usage = text "ServerAuth" ∷ [];
          basic_constraints_valid = false;
          dns_names = dns_sans;
          rest = lib.unset;
        }))

  -- `x509.CreateCertificate(rand.Reader, template, parent, public, signer)`
  abbrev pub create_certificate :
      Certificate Time Rest → Certificate Time Rest → PublicKey → Key → Action Env GoString
  create_certificate template parent public signer =
      on_env (lib.create_certificate template parent public signer)

  module _ (faults : Faults) where
    -- The file is open, and emptied, before anything is written to it.
    unfoldable pub write_pem : GoString → Block → ℕ → Action Env (Unit {0})
    write_pem path block mode s = elim (faults.open_error path) [
      | some e ↦ (err (text "open " ++ (path ++ (text ": " ++ e))), s)
      | none ↦ elim (faults.write_error path) [
        | none ↦ (ok tt, write_file path mode (lib.pem_encode block) s)
        | some (n, e) ↦ (
          err (text "write " ++ (path ++ (text ": " ++ e))),
          write_file path mode (take n (lib.pem_encode block)) s,
        )
      ]
    ]

    unfoldable pub write_cert_pem : GoString → GoString → Action Env (Unit {0})
    unfolding write_pem
    write_cert_pem path der =
        write_pem path (record { kind = text "CERTIFICATE"; bytes = der }) mode_644

    unfoldable pub write_ec_key_pem : GoString → Key → Action Env (Unit {0})
    unfolding write_pem
    write_ec_key_pem path key = do
      der ← wrapped (text "marshal ec key") (return (lib.marshal_ec_private_key key))
      write_pem path (record { kind = text "EC PRIVATE KEY"; bytes = der }) mode_600

    -- The end of generate.
    unfoldable pub write_files : CertFiles → GoString → Key → GoString → Key → Action Env (Unit {0})
    unfolding write_cert_pem write_ec_key_pem
    write_files p ca_der ca_key leaf_der leaf_key = do
      write_cert_pem p.ca_crt ca_der
      write_ec_key_pem p.ca_key ca_key
      write_cert_pem p.tls_crt leaf_der
      write_ec_key_pem p.tls_key leaf_key

    unfoldable pub generate : CertFiles → ℕ → List GoString → Action Env (Unit {0})
    unfolding ca_template leaf_template write_files
    generate p valid_for dns_sans = do
      ca_key ← wrapped (text "gen ca key") (on_env lib.generate_key)
      ca_tmpl ← ca_template valid_for
      ca_der ←
          wrapped (text "sign ca")
            (create_certificate ca_tmpl ca_tmpl (lib.public_key ca_key) ca_key)
      leaf_key ← wrapped (text "gen leaf key") (on_env lib.generate_key)
      leaf_tmpl ← leaf_template valid_for dns_sans
      ca_cert ← wrapped (text "parse ca") (return (lib.parse_certificate ca_der))
      leaf_der ←
          wrapped (text "sign leaf")
            (create_certificate leaf_tmpl ca_cert (lib.public_key leaf_key) ca_key)
      write_files p ca_der ca_key leaf_der leaf_key

    unfoldable pub main : Flags → Action Env Done
    unfolding cert_paths all_exist generate
    main flags s =
        let paths = cert_paths flags.out in
        if str_eq flags.out []
        then (fatal (text "--out is required"), s)
        else elim (faults.mkdir_error flags.out) [
          | some e ↦ (fatal (text "mkdir " ++ (flags.out ++ (text ": " ++ e))), s)
          | none ↦
              if all_exist paths s.files
              then (ok nothing_to_do, s)
              else finish
                  (generate paths flags.valid_for (set_all default_dns_sans flags.dns_sans) s)
        ]
