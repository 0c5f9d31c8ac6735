-- ===== src/Tests/Certificates.antt =====
-- Test data for internal/core/server.go: cryptography that always answers, and a source whose
-- numbers are all 0.
use mos_tls_tunnel.Prelude.{ℕ, ◌+◌, ◌<◌, ◌≡◌, refl, some, [], ◌∷◌, ◌++◌, Bytes, codes, ok}
use mos_tls_tunnel.Certificate.{Rand, Crypto, rand_loop, rand_str, rand_server_name}
use mos_tls_tunnel.Certificate.Names.{IsBelow, IsRandomName, rand_server_name-IsRandomName}

abbrev pub some_crypto : Crypto
some_crypto = record {
  generate_key = ok 5;
  rand_int = λ limit. ok 6;
  public_key = λ key. key + 1;
  now_before = 10;
  now_after = 20;
  add_date = λ t years months days. t + years;
  create_certificate = λ made parent public signer. ok (made.common_name);
  marshal_pkcs8 = λ key. ok (key ∷ []);
  encode_pem = λ kind block. kind ++ block;
  x509_key_pair = λ cert key. ok 7;
}

abbrev pub first_letters : Rand
first_letters = record {
  Source = Unit {0};
  new_source = λ seed. tt;
  intn = λ source n. (source, 0);
}

pub first_letters-IsBelow :
    (r : first_letters.Source) (n : ℕ) → 0 < n → IsBelow n (first_letters.intn r n)
first_letters-IsBelow r n h = h

test_rand_server_name : rand_server_name first_letters tt 1 2 ≡ some (codes "aaa.a")
unfolding rand_server_name rand_str rand_loop
test_rand_server_name = refl

rand_server_name-IsRandomName_example :
    (s : Bytes) × (rand_server_name first_letters tt 1 2 ≡ some s) × IsRandomName s
rand_server_name-IsRandomName_example =
    rand_server_name-IsRandomName first_letters first_letters-IsBelow tt 1 2
