-- ===== src/Certificate.antt =====
-- `generateCertificate`, `randServerName` and `randStr` of internal/core/server.go. The packages
-- crypto, encoding/pem, math/rand and time are parameters; a key and an error are numbers here.
pub mod Names
pub mod Generated
use mos_tls_tunnel.Prelude.{
  ℕ, zero, suc, ◌+◌, ◌^◌, Option, none, some, Bool, true, List, [], ◌∷◌, ◌++◌, Bytes, codes, length,
  if◌then◌else◌, Result, ok, err, ◌>>=◌,
}
use mos_tls_tunnel.Client.New.{is_nil}

-- `rand.New(rand.NewSource(seed))` and `Intn`.
pub record Rand : Type 1 where
  pub Source : Type 0
  pub new_source : ℕ → Source
  pub intn : Source → ℕ → Source × ℕ

abbrev pub get_elem? : Bytes → ℕ → Option ℕ
get_elem? [] i = none
get_elem? (x ∷ xs) zero = some x
get_elem? (x ∷ xs) (suc i) = get_elem? xs i

abbrev pub set : Bytes
set = codes "abcdefghijklmnopqrstuvwxyz"

abbrev pub with_byte : ℕ → Option Bytes → Option Bytes
with_byte b none = none
with_byte b (some s) = some (b ∷ s)

abbrev pub with_dot : Option Bytes → Option Bytes → Option Bytes
with_dot (some a) (some b) = some (a ++ (b'.' ∷ b))
with_dot (some a) none = none
with_dot none b = none

module _ (R : Rand) where
  open R use {Source, new_source, intn}

  -- The loop of `randStr`; `none` is the panic of an index out of range.
  unfoldable pub rand_loop : ℕ → Source → Option Bytes
  rand_loop zero r = some []
  rand_loop (suc n) r =
      let (r', i) = intn r (length set) in
      elim (get_elem? set i) [ none ↦ none | some b ↦ with_byte b (rand_loop n r') ]

  -- `now` is the time in nanoseconds.
  unfoldable pub rand_str : ℕ → ℕ → Option Bytes
  unfolding rand_loop
  rand_str now len = rand_loop len (new_source now)

  -- `first` and `second` are the times of the two calls of `randStr`.
  unfoldable pub rand_server_name : Source → ℕ → ℕ → Option Bytes
  rand_server_name global first second =
      let (global', a) = intn global 5 in
      let (_, b) = intn global' 3 in with_dot (rand_str first (a + 3)) (rand_str second (b + 1))

pub data KeyUsage : Type 0 where
  key_encipherment digital_signature : KeyUsage

pub data ExtKeyUsage : Type 0 where
  server_auth : ExtKeyUsage

pub record Template : Type 0 where
  pub serial_number : ℕ
  pub common_name : Bytes
  pub dns_names : List Bytes
  pub not_before : ℕ
  pub not_after : ℕ
  pub key_usage : List KeyUsage
  pub ext_key_usage : List ExtKeyUsage
  pub basic_constraints_valid : Bool

-- What the packages answer. `rand_int` is given its limit, and `create_certificate` the template,
-- the parent, the public key and the key that signs.
pub record Crypto : Type 0 where
  pub generate_key : Result ℕ ℕ
  pub rand_int : ℕ → Result ℕ ℕ
  pub public_key : ℕ → ℕ
  pub now_before : ℕ
  pub now_after : ℕ
  pub add_date : ℕ → (years months days : ℕ) → ℕ
  pub create_certificate : Template → Template → ℕ → ℕ → Result ℕ Bytes
  pub marshal_pkcs8 : ℕ → Result ℕ Bytes
  pub encode_pem : Bytes → Bytes → Bytes
  pub x509_key_pair : Bytes → Bytes → Result ℕ ℕ

pub data CertificateError : Type 0 where
  failed : ℕ → CertificateError
  serial_number_failed : ℕ → CertificateError
  index_out_of_range : CertificateError

abbrev pub wrap : {A : Type 0} → (ℕ → CertificateError) → Result ℕ A → Result CertificateError A
wrap f (ok a) = ok a
wrap f (err e) = err (f e)

abbrev pub name_of : Option Bytes → Bytes → Result CertificateError Bytes
name_of random (c ∷ name) = ok (c ∷ name)
name_of (some random) [] = ok random
name_of none [] = err index_out_of_range

unfoldable pub template : Crypto → ℕ → Bytes → Template
template c serial name = record {
  serial_number = serial;
  common_name = name;
  dns_names = name ∷ [];
  not_before = c.now_before;
  not_after = c.add_date c.now_after 10 0 0;
  key_usage = key_encipherment ∷ digital_signature ∷ [];
  ext_key_usage = server_auth ∷ [];
  basic_constraints_valid = true;
}

-- `random` is the result of `randServerName`, which is called for an empty name only.
unfoldable pub generate_certificate :
    Crypto → Option Bytes → Bytes → Result CertificateError (List ℕ)
generate_certificate c random server_name = do
  key ← wrap failed c.generate_key
  serial ← wrap serial_number_failed (c.rand_int (2 ^ 128))
  name ← name_of random server_name
  der ← wrap failed (
      c.create_certificate (template c serial name) (template c serial name) (c.public_key key) key)
  b ← wrap failed (c.marshal_pkcs8 key)
  cert ← wrap failed (
      c.x509_key_pair (c.encode_pem (codes "CERTIFICATE") der)
        (c.encode_pem (codes "EC PRIVATE KEY") b))
  ok (cert ∷ [])
