-- ===== src/Server/SelfSigned.antt =====
-- `NewServer` with `generateCertificate` and `randServerName`: the server that makes its own
-- certificate.
use mos_tls_tunnel.Prelude.{
  ℕ, ◌<◌, ◌≡◌, ◌≢◌, ◌⊎◌, inl, inr, ap, ◌∙◌, false, Option, some, List, [], ◌∷◌, Bytes, Result, ok,
  subst,
}
use mos_tls_tunnel.Config.{ServerConfig}
use mos_tls_tunnel.Certificate.{Rand, rand_server_name, Crypto, generate_certificate}
use mos_tls_tunnel.Certificate.Names.{IsBelow, IsRandomName, rand_server_name-IsRandomName}
use mos_tls_tunnel.Certificate.Generated.{SelfSigned, NameFor, generate_certificate-SelfSigned}
use mos_tls_tunnel.Server.New.{Certificates, Server, build_server, new_server}
use mos_tls_tunnel.Server.NewLaws.{Source, disabled, self_signed, loaded, new_server_only_accepts}

-- The name asked for, or a random one.
abbrev pub IsNameFor : Bytes → Bytes → Type 0
IsNameFor server_name name =
    ((server_name ≢ []) × (name ≡ server_name)) ⊎ ((server_name ≡ []) × IsRandomName name)

generated :
    (certs : Certificates) (c : ServerConfig) (t : Option (List ℕ))
    → Source certs c t
    → c.disable_tls ≡ false
    → c.cert ≡ []
    → c.key ≡ []
    → (xs : List ℕ) × (generate_certificate certs.crypto certs.random c.server_name ≡ ok xs)
      × (t ≡ some xs)
generated certs c t (disabled off e) on no_cert no_key = absurd (cc)
generated certs c t (self_signed xs on n k g e) _ no_cert no_key = (xs, g, e)
generated certs c t (loaded x on (inl g) l e) _ no_cert no_key = absurd (g no_cert)
generated certs c t (loaded x on (inr g) l e) _ no_cert no_key = absurd (g no_key)

module _ (R : Rand) (law : (r : R.Source) (n : ℕ) → 0 < n → IsBelow n (R.intn r n)) where
  named :
      (global : R.Source) (first second : ℕ) (server_name name : Bytes)
      → NameFor (rand_server_name R global first second) server_name name
      → IsNameFor server_name name
  named global first second server_name name (inl h) = inl h
  named global first second server_name name (inr (none, e)) =
      let (s, f, is_random) = rand_server_name-IsRandomName R law global first second in
      inr (none, subst (λ x. IsRandomName x) (cc) is_random)

  -- A server without a certificate and a key in its configuration, and with TLS, has one
  -- certificate: it is signed by its own key, and its common name and its only DNS name are the name
  -- of the configuration, or a random name if that is empty, where `Intn` gives a number below its
  -- argument.
  pub new_server-SelfSigned :
      (global : R.Source) (first second : ℕ) (crypto : Crypto) (load : Bytes → Bytes → Result ℕ ℕ)
      (c : ServerConfig) (s : Server)
      → new_server
          (record { crypto = crypto; random = rand_server_name R global first second; load = load })
          c
        ≡ ok s
      → c.disable_tls ≡ false
      → c.cert ≡ []
      → c.key ≡ []
      → (name : Bytes) × (cert : ℕ) × (s.tls_certificates ≡ some (cert ∷ []))
        × IsNameFor c.server_name name
        × SelfSigned crypto name cert
  unfolding build_server
  new_server-SelfSigned global first second crypto load c s h on no_cert no_key =
      let certs : Certificates = record {
        crypto = crypto;
        random = rand_server_name R global first second;
        load = load;
      } in
      let (b, d, p, (t, source, e)) = new_server_only_accepts certs c s h in
      let (xs, made, f) = generated certs c t source on no_cert no_key in
      let (name, cert, g, is_name, signed) =
        generate_certificate-SelfSigned crypto certs.random c.server_name xs made in
      (
        name,
        cert,
        ap (λ x. x.tls_certificates) e ∙ (f ∙ ap some g),
        named global first second c.server_name name is_name,
        signed,
      )
