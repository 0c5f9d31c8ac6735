-- ===== src/Server/NewLaws.antt =====
-- Which configurations `NewServer` accepts, and where its certificate comes from.
use mos_tls_tunnel.Prelude.{
  ℕ, ◌≡◌, ◌≢◌, ◌↔◌, ap, sym, ◌∙◌, ◌⊎◌, inl, inr, refl, true, false, ◌&&◌, Option, none, some, List,
  [], ◌∷◌, arith, Bytes, pos, int_ltb, Result, ok, err, Bool-cases, ◌>>=◌,
}
use mos_tls_tunnel.Certificate.{generate_certificate}
use mos_tls_tunnel.Config.{ServerConfig}
use mos_tls_tunnel.Client.New.{is_nil}
use mos_tls_tunnel.Client.Checks.{
  IsPositive, int-IsPositive, int_positive_passes, is_nil-ne, ne_of_is_nil,
}
use mos_tls_tunnel.Server.New.{
  Certificates, NewServerError, generate_failed, load_failed, Server, or_fail, alone, tls_of,
  build_server, new_server,
}

-- Where the certificate of a server comes from.
pub data Source (certs : Certificates) (c : ServerConfig) : Option (List ℕ) → Type 0 where
  disabled : {t : Option (List ℕ)} → c.disable_tls ≡ true → t ≡ none → Source certs c t
  self_signed :
      {t : Option (List ℕ)} (xs : List ℕ)
      → c.disable_tls ≡ false
      → c.cert ≡ []
      → c.key ≡ []
      → generate_certificate certs.crypto certs.random c.server_name ≡ ok xs
      → t ≡ some xs
      → Source certs c t
  loaded :
      {t : Option (List ℕ)} (x : ℕ)
      → c.disable_tls ≡ false
      → ((c.cert ≢ []) ⊎ (c.key ≢ []))
      → certs.load c.cert c.key ≡ ok x
      → t ≡ some (x ∷ [])
      → Source certs c t

of_or_fail :
    {E : Type 0} (f : E → NewServerError) (r : Result E (List ℕ)) (t : Option (List ℕ))
    → or_fail f r ≡ ok t
    → (xs : List ℕ) × (r ≡ ok xs) × (t ≡ some xs)
of_or_fail f (ok xs) t h = (xs, refl, ground arith)
of_or_fail f (err e) t h = cc

of_alone : (r : Result ℕ ℕ) (xs : List ℕ) → alone r ≡ ok xs → (x : ℕ) × (r ≡ ok x) × (xs ≡ x ∷ [])
of_alone (ok x) xs h = (x, refl, ground arith)
of_alone (err e) xs h = cc

given_one : (cert key : Bytes) → (is_nil cert && is_nil key) ≡ false → (cert ≢ []) ⊎ (key ≢ [])
given_one [] [] h = cc
given_one (x ∷ cert) key h = inl (λ e. cc)
given_one [] (x ∷ key) h = inr (λ e. cc)

given_none : (cert key : Bytes) → (is_nil cert && is_nil key) ≡ true → (cert ≡ []) × (key ≡ [])
given_none [] [] h = (refl, refl)
given_none (x ∷ cert) key h = cc
given_none [] (x ∷ key) h = cc

tls_of-Source :
    (certs : Certificates) (c : ServerConfig) (t : Option (List ℕ))
    → tls_of certs c ≡ ok t
    → Source certs c t
unfolding tls_of
tls_of-Source certs c t h = elim (Bool-cases c.disable_tls) [
  | inl off ↦ let g = rw off at h in disabled off (ground arith)
  | inr on ↦
      let g = rw on at h in
      elim (Bool-cases (is_nil c.cert && is_nil c.key)) [
        | inl neither ↦
            let (x, made, e) = of_or_fail generate_failed _ t (rw neither at g) in
            let (no_cert, no_key) = given_none c.cert c.key neither in
            self_signed x on no_cert no_key made e
        | inr some_one ↦
            let (xs, made, e) = of_or_fail load_failed _ t (rw some_one at g) in
            let (x, read, f) = of_alone _ xs made in
            loaded x on (given_one c.cert c.key some_one) read (e ∙ ap some f)
      ]
]

not_given : (cert key : Bytes) → (cert ≢ []) ⊎ (key ≢ []) → (is_nil cert && is_nil key) ≡ false
not_given [] [] (inl h) = absurd (h refl)
not_given [] [] (inr h) = absurd (h refl)
not_given (x ∷ cert) key h = refl
not_given [] (x ∷ key) h = refl

Source-tls_of :
    (certs : Certificates) (c : ServerConfig) (t : Option (List ℕ))
    → Source certs c t
    → tls_of certs c ≡ ok t
unfolding tls_of
Source-tls_of certs c t (disabled off e) = rw (off, e)
Source-tls_of certs c t (self_signed x on n k g e) = rw (on, n, k, g, e)
Source-tls_of certs c t (loaded x on g l e) = rw (on, not_given c.cert c.key g, l, e)

of_bind :
    (r : Result NewServerError (Option (List ℕ))) (c : ServerConfig) (s : Server)
    → (r >>= λ tls. ok (build_server c tls)) ≡ ok s
    → (t : Option (List ℕ)) × (r ≡ ok t) × (s ≡ build_server c t)
of_bind (ok t) c s h = (t, refl, ground arith)
of_bind (err e) c s h = cc

-- Where `NewServer` succeeds, the configuration has both addresses and a positive timeout, and
-- the server is that of the configuration. It has no certificate if TLS is disabled, one made for
-- its name if neither a certificate nor a key is given, and otherwise the one that is loaded.
pub new_server_only_accepts :
    (certs : Certificates) (c : ServerConfig) (s : Server)
    → new_server certs c ≡ ok s
    → (c.bind_addr ≢ [])
      × (c.dst_addr ≢ [])
      × IsPositive c.timeout
      × ((t : Option (List ℕ)) × Source certs c t × (s ≡ build_server c t))
unfolding new_server
new_server_only_accepts certs c s h = elim (Bool-cases (is_nil c.bind_addr)) [
  | inl bad ↦ let g = rw bad at h in cc
  | inr bound ↦
      let g = rw bound at h in
      elim (Bool-cases (is_nil c.dst_addr)) [
        | inl bad ↦ let k = rw bad at g in cc
        | inr dst ↦
            let k = rw dst at g in
            elim (Bool-cases (int_ltb (pos 0) c.timeout)) [
              | inr bad ↦ let l = rw bad at k in cc
              | inl timed ↦
                  let (t, e, eq) = of_bind (tls_of certs c) c s (rw timed at k) in
                  (
                    ne_of_is_nil _ bound,
                    ne_of_is_nil _ dst,
                    int-IsPositive _ timed,
                    (t, tls_of-Source certs c t e, eq),
                  )
            ]
      ]
]

-- From a configuration with both addresses and a positive timeout, and a certificate from the
-- source that the configuration asks for, `NewServer` makes the server of that configuration with
-- that certificate.
pub new_server_accepts :
    (certs : Certificates) (c : ServerConfig) (t : Option (List ℕ))
    → c.bind_addr ≢ []
    → c.dst_addr ≢ []
    → IsPositive c.timeout
    → Source certs c t
    → new_server certs c ≡ ok (build_server c t)
unfolding new_server
new_server_accepts certs c t b d p src = rw (
  is_nil-ne c.bind_addr b,
  is_nil-ne c.dst_addr d,
  int_positive_passes c.timeout p,
  Source-tls_of certs c t src,
)

-- `NewServer` succeeds exactly on a configuration with both addresses and a positive timeout whose
-- certificate can be had, and gives the server of that configuration with that certificate: none if
-- TLS is disabled, one that is made if neither a certificate nor a key is given, and otherwise the
-- one that is loaded.
pub new_server-Source :
    (certs : Certificates) (c : ServerConfig) (s : Server)
    → (new_server certs c ≡ ok s) ↔ (
        (c.bind_addr ≢ [])
        × (c.dst_addr ≢ [])
        × IsPositive c.timeout
        × ((t : Option (List ℕ)) × Source certs c t × (s ≡ build_server c t)))
new_server-Source certs c s = (
  new_server_only_accepts certs c s,
  λ h. new_server_accepts certs c (h.3.0) (h.0) (h.1) (h.2) (h.3.1) ∙ ap ok (sym (h.3.2)),
)
