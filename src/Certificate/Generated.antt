-- ===== src/Certificate/Generated.antt =====
-- What `generateCertificate` signs.
use mos_tls_tunnel.Prelude.{
  ℕ, ◌≡◌, ◌≢◌, ◌⊎◌, inl, inr, refl, Option, none, some, List, [], ◌∷◌, ◌^◌, Bytes, codes, Result,
  ok, err, ◌>>=◌,
}
use mos_tls_tunnel.Certificate.{
  Crypto, Template, server_auth, key_encipherment, digital_signature, CertificateError, failed,
  serial_number_failed, wrap, name_of, template, generate_certificate,
}

-- A certificate for one name, with a serial number below 2^128, made from a template that is its
-- own parent, and signed by the key that it is for.
pub record SelfSigned (c : Crypto) (name : Bytes) (cert : ℕ) : Type 0 where
  pub key : ℕ
  pub serial : ℕ
  pub der : Bytes
  pub pkcs8 : Bytes
  pub made_from : Template
  pub of_key : c.generate_key ≡ ok key
  pub of_serial : c.rand_int (2 ^ 128) ≡ ok serial
  pub numbered : made_from.serial_number ≡ serial
  pub names : (made_from.common_name ≡ name) × (made_from.dns_names ≡ name ∷ [])
  pub valid_from : made_from.not_before ≡ c.now_before
  pub valid_to : made_from.not_after ≡ c.add_date c.now_after 10 0 0
  pub for_servers : made_from.ext_key_usage ≡ server_auth ∷ []
  pub key_used_for : made_from.key_usage ≡ key_encipherment ∷ digital_signature ∷ []
  pub signed : c.create_certificate made_from made_from (c.public_key key) key ≡ ok der
  pub marshalled : c.marshal_pkcs8 key ≡ ok pkcs8
  pub paired :
      c.x509_key_pair
        (c.encode_pem (codes "CERTIFICATE") der)
        (c.encode_pem (codes "EC PRIVATE KEY") pkcs8)
      ≡ ok cert

-- The name that is asked for, or the random one where none is.
abbrev pub NameFor : Option Bytes → Bytes → Bytes → Type 0
NameFor random server_name name =
    ((server_name ≢ []) × (name ≡ server_name)) ⊎ ((server_name ≡ []) × (random ≡ some name))

of_wrap :
    {A B : Type 0} (f : ℕ → CertificateError) (r : Result ℕ A) (k : A → Result CertificateError B)
    (b : B)
    → (wrap f r >>= k) ≡ ok b
    → (a : A) × (r ≡ ok a) × (k a ≡ ok b)
of_wrap f (ok a) k b h = (a, refl, h)
of_wrap f (err e) k b h = cc

of_name :
    {B : Type 0} (random : Option Bytes) (server_name : Bytes)
    (k : Bytes → Result CertificateError B) (b : B)
    → (name_of random server_name >>= k) ≡ ok b
    → (name : Bytes) × NameFor random server_name name × (k name ≡ ok b)
of_name random (x ∷ xs) k b h = (x ∷ xs, inl ((λ e. cc), refl), h)
of_name (some name) [] k b h = (name, inr (refl, refl), h)
of_name none [] k b h = cc

-- A list that `generateCertificate` gives has one certificate, signed by its own key, for ten years
-- and for one name, the one that is asked for or the random one.
pub generate_certificate-SelfSigned :
    (c : Crypto) (random : Option Bytes) (server_name : Bytes) (xs : List ℕ)
    → generate_certificate c random server_name ≡ ok xs
    → (name : Bytes) × (cert : ℕ) × (xs ≡ cert ∷ [])
      × NameFor random server_name name
      × SelfSigned c name cert
unfolding generate_certificate template
generate_certificate-SelfSigned c random server_name xs h =
    let (key, key_eq, h1) = of_wrap failed c.generate_key _ xs h in
    let (serial, serial_eq, h2) = of_wrap serial_number_failed (c.rand_int (2 ^ 128)) _ xs h1 in
    let (name, is_name, h3) = of_name random server_name _ xs h2 in
    let (der, der_eq, h4) = of_wrap failed _ _ xs h3 in
    let (pkcs8, pkcs8_eq, h5) = of_wrap failed _ _ xs h4 in
    let (cert, cert_eq, h6) = of_wrap failed _ _ xs h5 in
    (
      name,
      cert,
      cc,
      is_name,
      record {
        key = key;
        serial = serial;
        der = der;
        pkcs8 = pkcs8;
        made_from = template c serial name;
        of_key = key_eq;
        of_serial = serial_eq;
        numbered = refl;
        names = (refl, refl);
        valid_from = refl;
        valid_to = refl;
        for_servers = refl;
        key_used_for = refl;
        signed = der_eq;
        marshalled = pkcs8_eq;
        paired = cert_eq;
      },
    )
