-- ===== src/GenCerts/Files.antt =====
-- The four files of a directory are four, and what they hold after they are written.
use simple_api_server.Prelude.{
  ◌≡◌, ◌≢◌, refl, inl, inr, false, Option, none, Bool-cases, ==_iff, some, [], ◌∷◌, ◌++◌, GoString,
  str_eq, str_eq_refl, str_eq_iff, text,
}
use simple_api_server.GenCerts.Effects.{File, Machine}
use simple_api_server.GenCerts.Types.{CertFiles, join, cert_paths}
use simple_api_server.GenCerts.Issued.{written}

str_eq-append : (d x y : GoString) → str_eq (d ++ x) (d ++ y) ≡ str_eq x y
unfolding str_eq
str_eq-append [] x y = refl
str_eq-append (c ∷ d) x y = rw ((==_iff c c).1 refl) (str_eq-append d x y)

str_eq-join : (dir x y : GoString) → str_eq (join dir x) (join dir y) ≡ str_eq x y
unfolding str_eq
str_eq-join dir x y = str_eq-append dir (text "/" ++ x) (text "/" ++ y)

str_eq_ne : (x y : GoString) → x ≢ y → str_eq x y ≡ false
str_eq_ne x y differ = elim (Bool-cases (str_eq x y)) [
  | inl e ↦ absurd (differ ((str_eq_iff x y).0 e))
  | inr e ↦ e
]

-- The paths differ, the one written later first.
pub record AreDistinct (p : CertFiles) : Type 0 where
  pub key_crt : str_eq p.ca_key p.ca_crt ≡ false
  pub tls_ca_crt : str_eq p.tls_crt p.ca_crt ≡ false
  pub tls_ca_key : str_eq p.tls_crt p.ca_key ≡ false
  pub tls_key_ca_crt : str_eq p.tls_key p.ca_crt ≡ false
  pub tls_key_ca_key : str_eq p.tls_key p.ca_key ≡ false
  pub tls_key_crt : str_eq p.tls_key p.tls_crt ≡ false

pub cert_paths-AreDistinct : (dir : GoString) → AreDistinct (cert_paths dir)
unfolding cert_paths str_eq
cert_paths-AreDistinct dir = record {
  key_crt = str_eq-join dir (text "ca.key") (text "ca.crt");
  tls_ca_crt = str_eq-join dir (text "tls.crt") (text "ca.crt");
  tls_ca_key = str_eq-join dir (text "tls.crt") (text "ca.key");
  tls_key_ca_crt = str_eq-join dir (text "tls.key") (text "ca.crt");
  tls_key_ca_key = str_eq-join dir (text "tls.key") (text "ca.key");
  tls_key_crt = str_eq-join dir (text "tls.key") (text "tls.crt");
}

-- What a file holds.
abbrev pub bytes_of : Option File → Option GoString
bytes_of none = none
bytes_of (some f) = some f.bytes

abbrev pub Holds : {Env : Type 0} → Machine Env → GoString → GoString → Type 0
Holds m path bytes = bytes_of (m.files path) ≡ some bytes

module _ {Env : Type 0} (p : CertFiles) (d : AreDistinct p)
    (ca_crt ca_key tls_crt tls_key : GoString) (s : Machine Env) where
  pub written-Holds :
      let t = written p ca_crt ca_key tls_crt tls_key s in
      Holds t p.ca_crt ca_crt
      × Holds t p.ca_key ca_key
      × Holds t p.tls_crt tls_crt
      × Holds t p.tls_key tls_key
  written-Holds = (
    rw (d.tls_key_ca_crt, d.tls_ca_crt, d.key_crt, str_eq_refl p.ca_crt) refl,
    rw (d.tls_key_ca_key, d.tls_ca_key, str_eq_refl p.ca_key) refl,
    rw (d.tls_key_crt, str_eq_refl p.tls_crt) refl,
    rw (str_eq_refl p.tls_key) refl,
  )

  pub written_elsewhere :
      (q : GoString)
      → p.ca_crt ≢ q
      → p.ca_key ≢ q
      → p.tls_crt ≢ q
      → p.tls_key ≢ q
      → (written p ca_crt ca_key tls_crt tls_key s).files q ≡ s.files q
  written_elsewhere q a b c e =
      rw
        (
          str_eq_ne p.ca_crt q a,
          str_eq_ne p.ca_key q b,
          str_eq_ne p.tls_crt q c,
          str_eq_ne p.tls_key q e,
        )
        refl
