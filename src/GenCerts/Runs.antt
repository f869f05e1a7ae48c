-- ===== src/GenCerts/Runs.antt =====
-- Runs of the tool, one after the other.
use simple_api_server.Prelude.{
  Option, ◌≡◌, ◌≢◌, refl, sym, ap, ◌∙◌, subst, inl, inr, true, false, Bool-cases, Option-cases,
  none, some, ◌⊎◌, [], GoString, str_eq,
}
use simple_api_server.GenCerts.Effects.{Result, ok, err, fatal, panic, Machine, File, Faults}
use simple_api_server.GenCerts.{generate, finish, main}
use simple_api_server.GenCerts.Types.{
  CertLibrary, CertFiles, Flags, Done, nothing_to_do, wrote, cert_paths, all_exist, set_all,
  default_dns_sans, is_some,
}
use simple_api_server.GenCerts.Issued.{Issued, cert_pem, key_pem, with_files}
use simple_api_server.GenCerts.Generated.{generate-Issued}
use simple_api_server.GenCerts.Files.{
  cert_paths-AreDistinct, bytes_of, Holds, written-Holds, written_elsewhere,
}

is_some_lem : (o : Option File) (b : GoString) → bytes_of o ≡ some b → is_some o ≡ true
is_some_lem none b h = cc
is_some_lem (some f) b h = refl

finish-eq-ok :
    {M : Type 0} (x : Result (Unit {0}) × M) (t : M) (d : Done)
    → ◌≡◌ {A = Result Done × M} (finish x) (ok d, t)
    → (d ≡ wrote) × (x ≡ (ok tt, t))
finish-eq-ok (ok _, s) t d h = (cc, ap (λ m. (ok tt, m)) (ap (λ y. y.1) h))
finish-eq-ok (err e, s) t d h = absurd (cc)
finish-eq-ok (fatal e, s) t d h = absurd (cc)
finish-eq-ok (panic, s) t d h = absurd (cc)

module _ {Env Time Rest Key PublicKey : Type 0}
    (lib : CertLibrary Env Time Rest Key PublicKey) where
  -- A run that ends well found the files, or made them.
  pub main-eq-ok :
      (faults : Faults) (flags : Flags) (s t : Machine Env) (d : Done)
      → main lib faults flags s ≡ (ok d, t)
      → (str_eq flags.out [] ≡ false)
        × (((d ≡ nothing_to_do) × (t ≡ s) × (all_exist (cert_paths flags.out) s.files ≡ true))
            ⊎ ((d ≡ wrote)
                × (all_exist (cert_paths flags.out) s.files ≡ false)
                × (generate lib faults
                      (cert_paths flags.out)
                      flags.valid_for
                      (set_all default_dns_sans flags.dns_sans)
                      s
                    ≡ (ok tt, t))))
  unfolding main
  main-eq-ok faults flags s t d h = elim (Bool-cases (str_eq flags.out [])) [
    | inl e ↦ absurd (cc (rw (e, main) at h))
    | inr e ↦ elim (Option-cases (faults.mkdir_error flags.out)) [
      | inr (x, f) ↦ absurd (cc (rw (e, f, main) at h))
      | inl f ↦ elim (Bool-cases (all_exist (cert_paths flags.out) s.files)) [
        | inl g ↦
            let h' = rw (e, f, g, main) at h in
            (e, inl ((cc, sym (ap (λ (x : Result Done × Machine Env). x.1) h'), g)))
        | inr g ↦
            let (done, made) = finish-eq-ok _ t d (rw (e, f, g, main) at h) in
            (e, inr (done, g, made))
      ]
    ]
  ]

  Holds-files :
      (t u : Machine Env) (path bytes : GoString)
      → t.files ≡ u.files
      → Holds u path bytes
      → Holds t path bytes
  Holds-files t u path bytes e h = ap (λ (fs : GoString → Option File). bytes_of (fs path)) e ∙ h

  -- A run that says that it wrote has generated a key and made an authority that is signed by it, has
  -- then generated a second key, in the environment that the signing left, and made a certificate for
  -- the public key of the second, signed by the first, with the default names and those of the
  -- command line; the four files under -out hold the two certificates and the two keys, tls.key the
  -- second, and no other file has changed.
  pub main_wrote :
      (faults : Faults) (flags : Flags) (s t : Machine Env)
      → main lib faults flags s ≡ (ok wrote, t)
      → let p = cert_paths flags.out in
        (c : Issued lib (set_all default_dns_sans flags.dns_sans)) × Holds t p.ca_crt
          (cert_pem lib c.certs.ca_der)
        × Holds t p.ca_key (key_pem lib c.ca_key_der)
        × Holds t p.tls_crt (cert_pem lib c.certs.leaf_der)
        × Holds t p.tls_key (key_pem lib c.leaf_key_der)
        × ((q : GoString)
            → p.ca_crt ≢ q
            → p.ca_key ≢ q
            → p.tls_crt ≢ q
            → p.tls_key ≢ q
            → t.files q ≡ s.files q)
  main_wrote faults flags s t h = elim ((main-eq-ok faults flags s t wrote h).1) [
    | inl (e, _, _) ↦ absurd (cc)
    | inr (_, _, made) ↦
        let p = cert_paths flags.out in
        let d = cert_paths-AreDistinct flags.out in
        let (c, e) =
          generate-Issued lib faults p flags.valid_for (set_all default_dns_sans flags.dns_sans) s t
            made in
        let u = with_files lib p c s in
        let (h₁, h₂, h₃, h₄) =
          written-Holds p d (cert_pem lib c.certs.ca_der) (key_pem lib c.ca_key_der)
            (cert_pem lib c.certs.leaf_der) (key_pem lib c.leaf_key_der) s in
        (
          c,
          Holds-files t u p.ca_crt _ e h₁,
          Holds-files t u p.ca_key _ e h₂,
          Holds-files t u p.tls_crt _ e h₃,
          Holds-files t u p.tls_key _ e h₄,
          λ q a b f g.
              ap (λ (fs : GoString → Option File). fs q) e
              ∙ written_elsewhere p d (cert_pem lib c.certs.ca_der) (key_pem lib c.ca_key_der)
                  (cert_pem lib c.certs.leaf_der) (key_pem lib c.leaf_key_der) s q a b f g,
        )
  ]

  pub all_exist_lem :
      (p : CertFiles) (m : Machine Env) (a b c d : GoString)
      → Holds m p.ca_crt a
      → Holds m p.ca_key b
      → Holds m p.tls_crt c
      → Holds m p.tls_key d
      → all_exist p m.files ≡ true
  unfolding all_exist
  all_exist_lem p m a b c d h₁ h₂ h₃ h₄ =
      rw (is_some_lem _ a h₁, is_some_lem _ b h₂, is_some_lem _ c h₃, is_some_lem _ d h₄) refl

  pub idle :
      (faults : Faults) (flags : Flags) (t : Machine Env)
      → str_eq flags.out [] ≡ false
      → faults.mkdir_error flags.out ≡ none
      → all_exist (cert_paths flags.out) t.files ≡ true
      → main lib faults flags t ≡ (ok nothing_to_do, t)
  unfolding main
  idle faults flags t out made exist = rw (out, made, exist, main) refl

  pub busy :
      (faults : Faults) (flags : Flags) (t : Machine Env)
      → str_eq flags.out [] ≡ false
      → faults.mkdir_error flags.out ≡ none
      → all_exist (cert_paths flags.out) t.files ≡ false
      → main lib faults flags t
        ≡ finish (
            generate lib faults
              (cert_paths flags.out)
              flags.valid_for
              (set_all default_dns_sans flags.dns_sans)
              t)
  unfolding main
  busy faults flags t out made missing = rw (out, made, missing, main) refl

  -- After a run that ended well, a run with the same -out changes nothing, whatever the other flags,
  -- if the directory can be made.
  pub main_again :
      (faults faults' : Faults) (flags flags' : Flags) (s t : Machine Env) (d : Done)
      → main lib faults flags s ≡ (ok d, t)
      → flags'.out ≡ flags.out
      → faults'.mkdir_error flags.out ≡ none
      → main lib faults' flags' t ≡ (ok nothing_to_do, t)
  main_again faults faults' flags flags' s t d h same made =
      let p = cert_paths flags.out in
      let (out, ends) = main-eq-ok faults flags s t d h in
      let exist : all_exist p t.files ≡ true = elim ends [
        | inl (_, e, there) ↦ rw e there
        | inr (e, _, _) ↦
            let (c, h₁, h₂, h₃, h₄, _) =
              main_wrote faults flags s t (subst (λ x. main lib faults flags s ≡ (ok x, t)) e h) in
            all_exist_lem p t _ _ _ _ h₁ h₂ h₃ h₄
      ] in
      idle faults' flags' t (subst (λ o. str_eq o [] ≡ false) (sym same) out)
        (subst (λ o. faults'.mkdir_error o ≡ none) (sym same) made)
        (subst (λ o. all_exist (cert_paths o) t.files ≡ true) (sym same) exist)
