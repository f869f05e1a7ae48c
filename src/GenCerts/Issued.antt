-- ===== src/GenCerts/Issued.antt =====
-- What a run of generate that succeeds has made: the authority, the certificate that it signed, and
-- the files.
use simple_api_server.Prelude.{ℕ, ◌≡◌, ap, ◌∙◌, true, false, List, GoString, text}
use simple_api_server.GenCerts.Effects.{ok, Machine, Faults, write_file}
use simple_api_server.GenCerts.{write_cert_pem, write_ec_key_pem, write_files, generate}
use simple_api_server.GenCerts.Types.{
  Certificate, CertLibrary, CertFiles, first, mode_644, mode_600,
}
use simple_api_server.GenCerts.Steps.{>>=-eq-ok, write_pem-eq-ok, write_ec_key_pem-eq-ok}

-- The four files with what is in them, in the order in which they are written.
abbrev pub written :
    {Env : Type 0}
    → CertFiles
    → GoString
    → GoString
    → GoString
    → GoString
    → Machine Env
    → Machine Env
written p ca_crt ca_key tls_crt tls_key s = write_file p.tls_key mode_600 tls_key (
    write_file p.tls_crt mode_644 tls_crt
      (write_file p.ca_key mode_600 ca_key (write_file p.ca_crt mode_644 ca_crt s)))

module _ {Env Time Rest Key PublicKey : Type 0}
    (lib : CertLibrary Env Time Rest Key PublicKey) where
  abbrev pub cert_pem : GoString → GoString
  cert_pem der = lib.pem_encode (record { kind = text "CERTIFICATE"; bytes = der })

  abbrev pub key_pem : GoString → GoString
  key_pem der = lib.pem_encode (record { kind = text "EC PRIVATE KEY"; bytes = der })

  -- The certificate of `public` is what the library makes of the template when `signer` signs.
  abbrev pub Signed :
      Certificate Time Rest → Certificate Time Rest → PublicKey → Key → GoString → Type 0
  Signed template parent public signer der =
      (e : Env) × ((lib.create_certificate template parent public signer e).0 ≡ ok der)

  -- An authority and a serving certificate for the names.
  pub record Certificates (dns_sans : List GoString) : Type 0 where
    pub ca_key : Key
    pub leaf_key : Key
    pub ca_tmpl : Certificate Time Rest
    pub leaf_tmpl : Certificate Time Rest
    pub ca_cert : Certificate Time Rest
    pub ca_der : GoString
    pub leaf_der : GoString
    -- The environments before and after the authority signs itself.
    pub before : Env
    pub after : Env
    pub ca_key_generated : (e : Env) × ((lib.generate_key e).0 ≡ ok ca_key)
    pub self_signed :
        lib.create_certificate ca_tmpl ca_tmpl (lib.public_key ca_key) ca_key before
        ≡ (ok ca_der, after)
    -- The serving key is generated anew, after that.
    pub leaf_key_generated : (lib.generate_key after).0 ≡ ok leaf_key
    pub parsed : lib.parse_certificate ca_der ≡ ok ca_cert
    pub leaf_signed : Signed leaf_tmpl ca_cert (lib.public_key leaf_key) ca_key leaf_der
    pub is_authority : ca_tmpl.is_ca ≡ true
    pub is_leaf : leaf_tmpl.is_ca ≡ false
    pub common_name : first dns_sans ≡ ok leaf_tmpl.common_name
    pub names : leaf_tmpl.dns_names ≡ dns_sans

  -- The same with the encoded keys.
  pub record Issued (dns_sans : List GoString) : Type 0 where
    pub certs : Certificates dns_sans
    pub ca_key_der : GoString
    pub leaf_key_der : GoString
    pub ca_key_encoded : lib.marshal_ec_private_key certs.ca_key ≡ ok ca_key_der
    pub leaf_key_encoded : lib.marshal_ec_private_key certs.leaf_key ≡ ok leaf_key_der

  abbrev pub four_files :
      CertFiles → GoString → GoString → GoString → GoString → Machine Env → Machine Env
  four_files p ca_der ca_key_der leaf_der leaf_key_der =
      written p (cert_pem ca_der) (key_pem ca_key_der) (cert_pem leaf_der) (key_pem leaf_key_der)

  -- The files of an issue, over those of before.
  abbrev pub with_files :
      CertFiles → {dns_sans : List GoString} → Issued dns_sans → Machine Env → Machine Env
  with_files p c s = four_files p c.certs.ca_der c.ca_key_der c.certs.leaf_der c.leaf_key_der s

  -- The part of generate before the files: whether they can be written is not asked yet.
  pub record Issuing (p : CertFiles) (valid_for : ℕ) (dns_sans : List GoString) (s : Machine Env)
      : Type 0 where
    pub certs : Certificates dns_sans
    pub state : Machine Env
    pub untouched : state.files ≡ s.files
    pub continues :
        (faults : Faults)
        → generate lib faults p valid_for dns_sans s
          ≡ write_files lib faults p certs.ca_der certs.ca_key certs.leaf_der certs.leaf_key state

  module _ (faults : Faults) where
    -- The four files, once the keys are encoded.
    pub write_files-eq-ok :
        (p : CertFiles) (ca_der : GoString) (ca_key : Key) (leaf_der : GoString) (leaf_key : Key)
        (s t : Machine Env)
        → write_files lib faults p ca_der ca_key leaf_der leaf_key s ≡ (ok tt, t)
        → (ca_key_der leaf_key_der : GoString) × (lib.marshal_ec_private_key ca_key ≡ ok ca_key_der)
          × (lib.marshal_ec_private_key leaf_key ≡ ok leaf_key_der)
          × (t ≡ four_files p ca_der ca_key_der leaf_der leaf_key_der s)
    unfolding write_files write_cert_pem
    write_files-eq-ok p ca_der ca_key leaf_der leaf_key s t h =
        >>=-eq-ok (write_cert_pem lib faults p.ca_crt ca_der) _ s h λ _ s₁ e₁ h₁.
          >>=-eq-ok (write_ec_key_pem lib faults p.ca_key ca_key) _ s₁ h₁ λ _ s₂ e₂ h₂.
            >>=-eq-ok (write_cert_pem lib faults p.tls_crt leaf_der) _ s₂ h₂ λ _ s₃ e₃ h₃.
              let f₁ = write_pem-eq-ok lib faults p.ca_crt _ mode_644 s s₁ e₁ in
              let (ca_key_der, encoded, f₂) =
                write_ec_key_pem-eq-ok lib faults p.ca_key ca_key s₁ s₂ e₂ in
              let f₃ = write_pem-eq-ok lib faults p.tls_crt _ mode_644 s₂ s₃ e₃ in
              let (leaf_key_der, encoded', f₄) =
                write_ec_key_pem-eq-ok lib faults p.tls_key leaf_key s₃ t h₃ in
              (
                ca_key_der,
                leaf_key_der,
                encoded,
                encoded',
                f₄
                    ∙ ap (write_file p.tls_key mode_600 (key_pem leaf_key_der)) (
                        f₃
                        ∙ ap (write_file p.tls_crt mode_644 (cert_pem leaf_der))
                            (f₂ ∙ ap (write_file p.ca_key mode_600 (key_pem ca_key_der)) f₁)),
              )
