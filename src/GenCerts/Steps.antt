-- ===== src/GenCerts/Steps.antt =====
-- What the steps of the tool did, when they succeeded.
use simple_api_server.Prelude.{
  ℕ, ◌≡◌, refl, sym, ap, ◌∙◌, inl, inr, true, false, Option-cases, none, some, List, ◌++◌, GoString,
  text,
}
use simple_api_server.GenCerts.Effects.{
  Result, ok, err, fatal, panic, wrap, Machine, Faults, Action, after, ◌>>=◌, return, on_env,
  wrapped, write_file, take,
}
use simple_api_server.GenCerts.{serial, write_pem, write_ec_key_pem, ca_template, leaf_template}
use simple_api_server.GenCerts.Types.{Certificate, Block, CertLibrary, first, mode_600}

-- What went before a success was one. The rest of the proof is the last argument.
pub >>=-eq-ok :
    {Env A B C : Type 0} (m : Action Env A) (f : A → Action Env B) (s : Machine Env) {b : B}
    {t : Machine Env}
    → ◌≡◌ {A = Result B × Machine Env} ((m >>= f) s) (ok b, t)
    → ((a : A) (s' : Machine Env) → m s ≡ (ok a, s') → f a s' ≡ (ok b, t) → C)
    → C
>>=-eq-ok {Env} {A} {B} {C} m f s {b} {t} h rest = go (m s).0 refl h
  where
    go :
        (r : Result A)
        → (m s).0 ≡ r
        → ◌≡◌ {A = Result B × Machine Env} (((λ (_ : Machine Env). (r, (m s).1)) >>= f) s) (ok b, t)
        → C
    go (ok a) e h' = rest a (m s).1 (ap (λ r. (r, (m s).1)) e) h'
    go (err x) e h' = cc
    go (fatal x) e h' = cc
    go panic e h' = cc

-- After a success, the rest runs.
pub then_ok :
    {Env A B : Type 0} (f : A → Action Env B) {x : Result A × Machine Env} {t : Machine Env} {a : A}
    → x ≡ (ok a, t)
    → after x f ≡ f a t
then_ok f h = ap (λ x. after x f) h

wrap-eq-ok :
    {A : Type 0} (context : GoString) (r : Result A) {a : A} → wrap context r ≡ ok a → r ≡ ok a
wrap-eq-ok context (ok a) h = h
wrap-eq-ok context (err e) h = cc
wrap-eq-ok context (fatal e) h = cc
wrap-eq-ok context panic h = cc

module _ {Env A : Type 0} where
  -- A wrapped call that succeeded.
  pub wrapped-eq-ok :
      (context : GoString) (r : Result A) {a : A} {s t : Machine Env}
      → ◌≡◌ {A = Result A × Machine Env} (wrap context r, s) (ok a, t)
      → r ≡ ok a
  wrapped-eq-ok context r h = wrap-eq-ok context r (ap (λ (x : Result A × Machine Env). x.0) h)

  pub on_env-eq-ok :
      (context : GoString) (f : Env → Result A × Env) {a : A} (s : Machine Env) {t : Machine Env}
      → wrapped context (on_env f) s ≡ (ok a, t)
      → f s.env ≡ (ok a, t.env)
  on_env-eq-ok context f s {t} h =
      λ i. (wrapped-eq-ok context (f s.env).0 h i, ap (λ (x : Result A × Machine Env). x.1.env) h i)

  pub same_files :
      {r : Result A} {a : A} {s t : Machine Env}
      → ◌≡◌ {A = Result A × Machine Env} (r, s) (ok a, t)
      → t.files ≡ s.files
  same_files h = sym (ap (λ (x : Result A × Machine Env). x.1.files) h)

pair-injective :
    {A S : Type 0} {a b : A} {s t : S}
    → ◌≡◌ {A = Result A × S} (ok a, s) (ok b, t)
    → (a ≡ b) × (s ≡ t)
pair-injective h = (cc, cc)

module _ {Env Time Rest Key PublicKey : Type 0} (lib : CertLibrary Env Time Rest Key PublicKey)
    (faults : Faults) where
  pub write_pem-eq-ok :
      (path : GoString) (block : Block) (mode : ℕ) (s t : Machine Env)
      → write_pem lib faults path block mode s ≡ (ok tt, t)
      → t ≡ write_file path mode (lib.pem_encode block) s
  unfolding write_pem
  write_pem-eq-ok path block mode s t h = elim (Option-cases (faults.open_error path)) [
    | inl e ↦ elim (Option-cases (faults.write_error path)) [
      | inl f ↦ sym (ap (λ (x : Result (Unit {0}) × Machine Env). x.1) (rw (e, f, write_pem) at h))
      | inr (x, f) ↦ absurd (cc (rw (e, f, write_pem) at h))
    ]
    | inr (x, e) ↦ absurd (cc (rw (e, write_pem) at h))
  ]

  pub write_ec_key_pem-eq-ok :
      (path : GoString) (key : Key) (s t : Machine Env)
      → write_ec_key_pem lib faults path key s ≡ (ok tt, t)
      → (der : GoString) × (lib.marshal_ec_private_key key ≡ ok der)
        × (t
            ≡ write_file path mode_600
                (lib.pem_encode (record { kind = text "EC PRIVATE KEY"; bytes = der }))
                s)
  unfolding write_ec_key_pem
  write_ec_key_pem-eq-ok path key s t h =
      >>=-eq-ok (wrapped (text "marshal ec key") (return (lib.marshal_ec_private_key key))) _ s h
        λ der s' e h'.
          let same : s' ≡ s = sym (ap (λ (x : Result GoString × Machine Env). x.1) e) in
          (
            der,
            wrapped-eq-ok (text "marshal ec key") (lib.marshal_ec_private_key key) e,
            write_pem-eq-ok path _ mode_600 s' t h'
                ∙ ap
                    (write_file path mode_600
                      (lib.pem_encode (record { kind = text "EC PRIVATE KEY"; bytes = der })))
                    same,
          )

  -- The template of the authority, made without a touch on the files.
  pub ca_template-eq-ok :
      (valid_for : ℕ) (s : Machine Env) {tmpl : Certificate Time Rest} {t : Machine Env}
      → ca_template lib valid_for s ≡ (ok tmpl, t)
      → (tmpl.is_ca ≡ true) × (t.files ≡ s.files)
  unfolding ca_template serial
  ca_template-eq-ok valid_for s h = >>=-eq-ok (serial lib) _ s h λ n s' e h'.
      let (same, end) = pair-injective h' in
      (
        sym (ap (λ (c : Certificate Time Rest). c.is_ca) same),
        sym (ap (λ (m : Machine Env). m.files) end) ∙ same_files e,
      )

  -- The template of the serving certificate.
  pub leaf_template-eq-ok :
      (valid_for : ℕ) (dns_sans : List GoString) (s : Machine Env) {tmpl : Certificate Time Rest}
      {t : Machine Env}
      → leaf_template lib valid_for dns_sans s ≡ (ok tmpl, t)
      → (tmpl.is_ca ≡ false)
        × (first dns_sans ≡ ok tmpl.common_name)
        × (tmpl.dns_names ≡ dns_sans)
        × (t.files ≡ s.files)
  unfolding leaf_template serial
  leaf_template-eq-ok valid_for dns_sans s h = >>=-eq-ok (serial lib) _ s h λ n s₁ e h₁.
      >>=-eq-ok (return (first dns_sans)) _ s₁ h₁ λ common_name s₂ f h₂.
        let (same, end) = pair-injective h₂ in
        (
          sym (ap (λ (c : Certificate Time Rest). c.is_ca) same),
          ap (λ (x : Result GoString × Machine Env). x.0) f
              ∙ ap (λ (c : Certificate Time Rest). ok c.common_name) same,
          sym (ap (λ (c : Certificate Time Rest). c.dns_names) same),
          sym (ap (λ (m : Machine Env). m.files) end) ∙ same_files f ∙ same_files e,
        )

  -- A write that does not fail.
  pub write_pem_whole :
      (path : GoString) (block : Block) (mode : ℕ) (s : Machine Env)
      → faults.open_error path ≡ none
      → faults.write_error path ≡ none
      → write_pem lib faults path block mode s
        ≡ (ok tt, write_file path mode (lib.pem_encode block) s)
  unfolding write_pem
  write_pem_whole path block mode s opens writes = rw (opens, writes, write_pem) refl

  -- A write that fails after some bytes.
  pub write_pem_partial :
      (path : GoString) (block : Block) (mode n : ℕ) (e : GoString) (s : Machine Env)
      → faults.open_error path ≡ none
      → faults.write_error path ≡ some (n, e)
      → write_pem lib faults path block mode s ≡ (
        err (text "write " ++ (path ++ (text ": " ++ e))),
        write_file path mode (take n (lib.pem_encode block)) s,
      )
  unfolding write_pem
  write_pem_partial path block mode n e s opens fails = rw (opens, fails, write_pem) refl
