-- ===== src/GenCerts/Interrupted.antt =====
-- A run that fails while it writes the last of the four files.
use simple_api_server.Prelude.{
  ℕ, ◌≡◌, refl, sym, ap, ◌∙◌, subst, inl, inr, true, false, none, some, List, [], ◌++◌, GoString,
  str_eq, str_eq_refl, text, if◌then◌else◌,
}
use simple_api_server.GenCerts.Effects.{
  Result, ok, err, fatal, Machine, Faults, wrap, take, write_file,
}
use simple_api_server.GenCerts.{write_cert_pem, write_ec_key_pem, write_files, finish, main}
use simple_api_server.GenCerts.Types.{
  CertLibrary, CertFiles, Flags, Done, nothing_to_do, wrote, cert_paths, all_exist, set_all,
  default_dns_sans, mode_644, mode_600,
}
use simple_api_server.GenCerts.Steps.{then_ok, write_pem_whole, write_pem_partial}
use simple_api_server.GenCerts.Issued.{Issued, cert_pem, key_pem, written, write_files-eq-ok}
use simple_api_server.GenCerts.Generated.{generate-Issuing}
use simple_api_server.GenCerts.Files.{AreDistinct, cert_paths-AreDistinct, Holds, written-Holds}
use simple_api_server.GenCerts.Runs.{main-eq-ok, all_exist_lem, idle, busy}

-- The file system fills up at the last file, after so many bytes of it.
abbrev pub full_at : GoString → ℕ → GoString → Faults
full_at path n e = record {
  mkdir_error = λ _. none;
  open_error = λ _. none;
  write_error = λ q. if str_eq path q then some (n, e) else none;
}

module _ {Env Time Rest Key PublicKey : Type 0}
    (lib : CertLibrary Env Time Rest Key PublicKey) where
  module _ (p : CertFiles) (d : AreDistinct p) (n : ℕ) (e : GoString) where
    key_whole :
        (path : GoString) (key : Key) (der : GoString) (s : Machine Env)
        → lib.marshal_ec_private_key key ≡ ok der
        → str_eq p.tls_key path ≡ false
        → write_ec_key_pem lib (full_at p.tls_key n e) path key s
          ≡ (ok tt, write_file path mode_600 (key_pem lib der) s)
    unfolding write_ec_key_pem
    key_whole path key der s encoded other =
        then_ok _ (ap (λ r. (wrap (text "marshal ec key") r, s)) encoded)
        ∙ write_pem_whole lib (full_at p.tls_key n e) path _ mode_600 s refl (rw other refl)

    key_partial :
        (key : Key) (der : GoString) (s : Machine Env)
        → lib.marshal_ec_private_key key ≡ ok der
        → write_ec_key_pem lib (full_at p.tls_key n e) p.tls_key key s ≡ (
          err (text "write " ++ (p.tls_key ++ (text ": " ++ e))),
          write_file p.tls_key mode_600 (take n (key_pem lib der)) s,
        )
    unfolding write_ec_key_pem
    key_partial key der s encoded =
        then_ok _ (ap (λ r. (wrap (text "marshal ec key") r, s)) encoded)
        ∙ write_pem_partial lib (full_at p.tls_key n e) p.tls_key _ mode_600 n e s refl
            (rw (str_eq_refl p.tls_key) refl)

    write_files_partial :
        (ca_der : GoString) (ca_key : Key) (leaf_der : GoString) (leaf_key : Key)
        (ca_key_der leaf_key_der : GoString) (s : Machine Env)
        → lib.marshal_ec_private_key ca_key ≡ ok ca_key_der
        → lib.marshal_ec_private_key leaf_key ≡ ok leaf_key_der
        → write_files lib (full_at p.tls_key n e) p ca_der ca_key leaf_der leaf_key s ≡ (
          err (text "write " ++ (p.tls_key ++ (text ": " ++ e))),
          written p
              (cert_pem lib ca_der)
              (key_pem lib ca_key_der)
              (cert_pem lib leaf_der)
              (take n (key_pem lib leaf_key_der))
              s,
        )
    unfolding write_files write_cert_pem
    write_files_partial ca_der ca_key leaf_der leaf_key ca_key_der leaf_key_der s enc enc' =
        let faults = full_at p.tls_key n e in
        let s₁ = write_file p.ca_crt mode_644 (cert_pem lib ca_der) s in
        let s₂ = write_file p.ca_key mode_600 (key_pem lib ca_key_der) s₁ in
        let s₃ = write_file p.tls_crt mode_644 (cert_pem lib leaf_der) s₂ in
        then_ok _ (write_pem_whole lib faults p.ca_crt _ mode_644 s refl (rw d.tls_key_ca_crt refl))
        ∙ then_ok _ (key_whole p.ca_key ca_key ca_key_der s₁ enc d.tls_key_ca_key)
        ∙ then_ok (λ _. write_ec_key_pem lib faults p.tls_key leaf_key)
            (write_pem_whole lib faults p.tls_crt _ mode_644 s₂ refl (rw d.tls_key_crt refl))
        ∙ key_partial leaf_key leaf_key_der s₃ enc'

  -- What the broken run leaves.
  abbrev Left :
      Flags → Faults → GoString → ℕ → GoString → List GoString → Result Done × Machine Env → Type 0
  Left flags' later path n e dns_sans x =
      (x.0 ≡ fatal (text "generate: " ++ (text "write " ++ (path ++ (text ": " ++ e)))))
      × ((c : Issued lib dns_sans) × Holds x.1 path (take n (key_pem lib c.leaf_key_der)))
      × (main lib later flags' x.1 ≡ (ok nothing_to_do, x.1))

  -- A run whose write of tls.key fails can never be repaired by another: on a machine on which a run
  -- writes all four files, if the write of tls.key fails after n bytes and no other call of the file
  -- system fails, the run ends with that error and leaves the first n bytes of the key in tls.key, and
  -- each later run with the same -out says that there is nothing to do and changes nothing, provided
  -- that the directory can be made then.
  pub main_interrupted :
      (faults later : Faults) (flags flags' : Flags) (s t : Machine Env) (n : ℕ) (e : GoString)
      → main lib faults flags s ≡ (ok wrote, t)
      → flags'.out ≡ flags.out
      → later.mkdir_error flags.out ≡ none
      → let path = (cert_paths flags.out).tls_key in
        let (r, u) = main lib (full_at path n e) flags s in
        (r ≡ fatal (text "generate: " ++ (text "write " ++ (path ++ (text ": " ++ e)))))
        × ((c : Issued lib (set_all default_dns_sans flags.dns_sans)) × Holds u path
              (take n (key_pem lib c.leaf_key_der)))
        × (main lib later flags' u ≡ (ok nothing_to_do, u))
  main_interrupted faults later flags flags' s t n e h same made =
      let (out, ends) = main-eq-ok lib faults flags s t wrote h in
      elim ends [
        | inl (x, _, _) ↦ absurd (cc)
        | inr (_, missing, generated) ↦
            let p = cert_paths flags.out in
            let d = cert_paths-AreDistinct flags.out in
            let dns_sans = set_all default_dns_sans flags.dns_sans in
            let i = generate-Issuing lib faults p flags.valid_for dns_sans s t generated in
            let (ca_key_der, leaf_key_der, enc, enc', _) =
              write_files-eq-ok lib faults p i.certs.ca_der i.certs.ca_key i.certs.leaf_der
                i.certs.leaf_key i.state t (sym (i.continues faults) ∙ generated) in
            let c : Issued lib dns_sans = record {
              certs = i.certs;
              ca_key_der = ca_key_der;
              leaf_key_der = leaf_key_der;
              ca_key_encoded = enc;
              leaf_key_encoded = enc';
            } in
            let broken = full_at p.tls_key n e in
            let u =
              written p (cert_pem lib i.certs.ca_der) (key_pem lib ca_key_der)
                (cert_pem lib i.certs.leaf_der) (take n (key_pem lib leaf_key_der)) i.state in
            let (h₁, h₂, h₃, h₄) =
              written-Holds p d (cert_pem lib i.certs.ca_der) (key_pem lib ca_key_der)
                (cert_pem lib i.certs.leaf_der) (take n (key_pem lib leaf_key_der)) i.state in
            let exist : all_exist p u.files ≡ true = all_exist_lem lib p u _ _ _ _ h₁ h₂ h₃ h₄ in
            let ran : main lib broken flags s
                ≡ finish (err (text "write " ++ (p.tls_key ++ (text ": " ++ e))), u) =
              busy lib broken flags s out refl missing
              ∙ ap finish (
                  i.continues broken
                  ∙ write_files_partial p d n e i.certs.ca_der i.certs.ca_key i.certs.leaf_der
                      i.certs.leaf_key ca_key_der leaf_key_der i.state enc enc') in
            subst (Left flags' later p.tls_key n e (set_all default_dns_sans flags.dns_sans))
              (sym ran)
              (
                refl,
                (c, h₄),
                idle lib later flags' u (subst (λ o. str_eq o [] ≡ false) (sym same) out)
                    (subst (λ o. later.mkdir_error o ≡ none) (sym same) made)
                    (subst (λ o. all_exist (cert_paths o) u.files ≡ true) (sym same) exist),
              )
      ]
