-- ===== src/GenCerts/Generated.antt =====
-- A run of generate that succeeds, step by step.
use simple_api_server.Prelude.{ℕ, ◌≡◌, sym, ap, ◌∙◌, List, GoString, text}
use simple_api_server.GenCerts.Effects.{ok, Machine, Faults, return, on_env, wrapped}
use simple_api_server.GenCerts.{ca_template, leaf_template, create_certificate, generate}
use simple_api_server.GenCerts.Types.{CertLibrary, CertFiles}
use simple_api_server.GenCerts.Steps.{
  >>=-eq-ok, then_ok, wrapped-eq-ok, on_env-eq-ok, same_files, ca_template-eq-ok,
  leaf_template-eq-ok,
}
use simple_api_server.GenCerts.Issued.{Issued, Issuing, with_files, write_files-eq-ok}

module _ {Env Time Rest Key PublicKey : Type 0} (lib : CertLibrary Env Time Rest Key PublicKey)
    (faults : Faults) where
  pub generate-Issuing :
      (p : CertFiles) (valid_for : ℕ) (dns_sans : List GoString) (s t : Machine Env)
      → generate lib faults p valid_for dns_sans s ≡ (ok tt, t)
      → Issuing lib p valid_for dns_sans s
  unfolding generate
  generate-Issuing p valid_for dns_sans s t h =
      let sign = create_certificate lib in
      >>=-eq-ok (wrapped (text "gen ca key") (on_env lib.generate_key)) _ s h λ ca_key s₁ e₁ h₁.
        >>=-eq-ok (ca_template lib valid_for) _ s₁ h₁ λ ca_tmpl s₂ e₂ h₂.
          >>=-eq-ok (wrapped (text "sign ca") (sign ca_tmpl ca_tmpl (lib.public_key ca_key) ca_key))
            _ s₂ h₂
            λ ca_der s₃ e₃ h₃.
              >>=-eq-ok (wrapped (text "gen leaf key") (on_env lib.generate_key)) _ s₃ h₃
                λ leaf_key s₄ e₄ h₄.
                  >>=-eq-ok (leaf_template lib valid_for dns_sans) _ s₄ h₄ λ leaf_tmpl s₅ e₅ h₅.
                    >>=-eq-ok (wrapped (text "parse ca") (return (lib.parse_certificate ca_der))) _
                      s₅ h₅
                      λ ca_cert s₆ e₆ h₆.
                        >>=-eq-ok
                          (wrapped (text "sign leaf")
                            (sign leaf_tmpl ca_cert (lib.public_key leaf_key) ca_key))
                          _ s₆ h₆
                          λ leaf_der s₇ e₇ h₇.
                            let (is_authority, f₂) = ca_template-eq-ok lib faults valid_for s₁ e₂ in
                            let (is_leaf, common_name, names, f₅) =
                              leaf_template-eq-ok lib faults valid_for dns_sans s₄ e₅ in
                            record {
                              certs = record {
                                ca_key = ca_key;
                                leaf_key = leaf_key;
                                ca_tmpl = ca_tmpl;
                                leaf_tmpl = leaf_tmpl;
                                ca_cert = ca_cert;
                                ca_der = ca_der;
                                leaf_der = leaf_der;
                                before = s₂.env;
                                after = s₃.env;
                                ca_key_generated = (s.env, wrapped-eq-ok (text "gen ca key") _ e₁);
                                self_signed =
                                    on_env-eq-ok (text "sign ca")
                                      (lib.create_certificate ca_tmpl ca_tmpl
                                        (lib.public_key ca_key) ca_key)
                                      s₂ e₃;
                                leaf_key_generated = wrapped-eq-ok (text "gen leaf key") _ e₄;
                                parsed = wrapped-eq-ok (text "parse ca") _ e₆;
                                leaf_signed = (s₆.env, wrapped-eq-ok (text "sign leaf") _ e₇);
                                is_authority = is_authority;
                                is_leaf = is_leaf;
                                common_name = common_name;
                                names = names;
                              };
                              state = s₇;
                              untouched =
                                  same_files e₇
                                  ∙ same_files e₆
                                  ∙ f₅
                                  ∙ same_files e₄
                                  ∙ same_files e₃
                                  ∙ f₂
                                  ∙ same_files e₁;
                              continues = λ faults'.
                                  then_ok _ e₁
                                  ∙ then_ok _ e₂
                                  ∙ then_ok _ e₃
                                  ∙ then_ok _ e₄
                                  ∙ then_ok _ e₅
                                  ∙ then_ok _ e₆
                                  ∙ then_ok _ e₇;
                            }

  pub generate-Issued :
      (p : CertFiles) (valid_for : ℕ) (dns_sans : List GoString) (s t : Machine Env)
      → generate lib faults p valid_for dns_sans s ≡ (ok tt, t)
      → (c : Issued lib dns_sans) × (t.files ≡ (with_files lib p c s).files)
  generate-Issued p valid_for dns_sans s t h =
      let i = generate-Issuing p valid_for dns_sans s t h in
      let certs = i.certs in
      let (ca_key_der, leaf_key_der, encoded, encoded', end) =
        write_files-eq-ok lib faults p certs.ca_der certs.ca_key certs.leaf_der certs.leaf_key
          i.state t (sym (i.continues faults) ∙ h) in
      let c : Issued lib dns_sans = record {
        certs = certs;
        ca_key_der = ca_key_der;
        leaf_key_der = leaf_key_der;
        ca_key_encoded = encoded;
        leaf_key_encoded = encoded';
      } in
      (
        c,
        ap (λ (m : Machine Env). m.files) end
            ∙ ap (λ fs. (with_files lib p c (record { files = fs; env = s.env })).files)
                i.untouched,
      )
