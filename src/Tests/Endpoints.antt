-- ===== src/Tests/Endpoints.antt =====
-- A client of internal/core/client.go and a server of internal/core/server.go.
use mos_tls_tunnel.Prelude.{
  ℕ, ◌≡◌, ◌≢◌, ◌↔◌, inr, refl, Bool, true, false, Option, none, some, List, [], ◌∷◌, arith, Bytes,
  codes, bytes_dec, same, pos, ok, err, if◌then◌else◌,
}
use mos_tls_tunnel.Config.{ClientConfig, ServerConfig, zero_client_config, zero_server_config}
use mos_tls_tunnel.GoStd.Strings.{contains_byte}
use mos_tls_tunnel.GoStd.Net.{AddrError, join_host_port, split_host_port, IsPlain}
use mos_tls_tunnel.Client.New.{build_client, new_client, set_server_name}
use mos_tls_tunnel.Client.Checks.{IsAccepted, completed, given, IsPositive}
use mos_tls_tunnel.Client.NewLaws.{
  new_client_accepts, new_client-IsAccepted, set_server_name-join_host_port,
}
use mos_tls_tunnel.Client.FallbackDns.{IsIpText, v4, resolver_dns_has_no_port}
use mos_tls_tunnel.Client.Forward.{Remote, forward_conn, forward_conn_leaks, reached_tunnel}
use mos_tls_tunnel.Handlers.{left, left_open, opens, closes}
use mos_tls_tunnel.Handlers.Tunnelled.{Network}
use mos_tls_tunnel.Streams.Accept.{Round, unexpected}
use mos_tls_tunnel.MultiUser.Table.{new_mux}
use mos_tls_tunnel.Tests.Certificates.{some_crypto, first_letters, first_letters-IsBelow}
use mos_tls_tunnel.Certificate.{rand_loop, rand_str, rand_server_name, generate_certificate}
use mos_tls_tunnel.Certificate.Generated.{SelfSigned}
use mos_tls_tunnel.Server.SelfSigned.{IsNameFor, new_server-SelfSigned}
use mos_tls_tunnel.Server.New.{Certificates, new_server, build_server}
use mos_tls_tunnel.Server.NewLaws.{Source, self_signed, new_server_accepts, new_server-Source}
use mos_tls_tunnel.Server.Serve
use mos_tls_tunnel.Server.Serve.{Peer, uses_mux, serve_conn, handle_conn}
use mos_tls_tunnel.Server.ServeLaws.{left_open-serve_conn, serve_http_leaks}
use mos_tls_tunnel.Server.Negotiation.{ChoosesOffered, has, uses_mux-negotiate}

abbrev client_config : ClientConfig
client_config = record zero_client_config {
  bind_addr = codes "127.0.0.1:1080";
  remote_addr = codes "1.2.3.4:443";
  enable_wss = true;
  wss_path = codes "ws";
  enable_mux = true;
  mux_max_stream = pos 4;
  server_name = codes "example.com";
  timeout = pos 300;
  fallback_dns = codes "8.8.8.8";
}

-- The only address that this test knows.
abbrev one_ip : Bytes → Bool
one_ip s = same s (codes "8.8.8.8")

client_config-IsAccepted : IsAccepted one_ip client_config (codes "example.com")
unfolding bytes_dec
client_config-IsAccepted = record {
  bound = λ e. cc;
  remote = λ e. cc;
  timed = (300, refl, omega arith);
  named_as = given (λ e. cc) refl;
  streams = (4, refl, omega arith, omega arith);
  dns = inr refl;
}

test_client_built :
    (new_client one_ip client_config).1
    ≡ ok (build_client (completed client_config (codes "example.com")))
test_client_built =
    new_client_accepts one_ip client_config (codes "example.com") client_config-IsAccepted

new_client-IsAccepted_example :
    ((new_client one_ip client_config).1
      ≡ ok (build_client (completed client_config (codes "example.com"))))
    ↔ ((name : Bytes) × IsAccepted one_ip client_config name
        × (build_client (completed client_config (codes "example.com"))
            ≡ build_client (completed client_config name)))
new_client-IsAccepted_example =
    new_client-IsAccepted one_ip client_config
      (build_client (completed client_config (codes "example.com")))

IsPlain-address : IsPlain (codes "::1") (codes "443")
unfolding contains_byte
IsPlain-address = record {
  port_colon = refl;
  host_open = refl;
  host_close = refl;
  port_open = refl;
  port_close = refl;
}

abbrev unnamed_config : ClientConfig
unfolding join_host_port
unnamed_config = record client_config {
  server_name = [];
  remote_addr = join_host_port (codes "::1") (codes "443");
}

test_unnamed :
    (unnamed_config.server_name ≡ [])
    × (unnamed_config.remote_addr ≡ join_host_port (codes "::1") (codes "443"))
unfolding unnamed_config
test_unnamed = (refl, refl)

test_set_server_name-join_host_port :
    set_server_name unnamed_config ≡ ok (record unnamed_config { server_name = codes "::1" })
test_set_server_name-join_host_port =
    set_server_name-join_host_port unnamed_config (codes "::1") (codes "443") IsPlain-address
      test_unnamed.0 test_unnamed.1

one_ip-IsIpText : (s : Bytes) → one_ip s ≡ true → IsIpText s
unfolding contains_byte
one_ip-IsIpText s h = elim (bytes_dec s (codes "8.8.8.8")) [
  | yes e ↦ rw e (v4 refl refl)
  | no n ↦ absurd (n (ground arith))
]

test_resolver :
    (build_client (completed client_config (codes "example.com"))).resolver_dns
    ≡ some (codes "8.8.8.8")
unfolding build_client
test_resolver = refl

resolver_dns_has_no_port_example : (e : AddrError) × (split_host_port (codes "8.8.8.8") ≡ err e)
resolver_dns_has_no_port_example =
    resolver_dns_has_no_port one_ip client_config
      (build_client (completed client_config (codes "example.com"))) (codes "8.8.8.8")
      one_ip-IsIpText test_client_built test_resolver

-- The remote address answers, and a new session fails to open a stream.
abbrev broken_remote : Remote
broken_remote = record {
  raw = true;
  handshake = true;
  websocket = false;
  smux = true;
  pooled = none;
  new_stream = none;
  tunnel = false;
}

abbrev tls_config : ClientConfig
tls_config = record client_config { enable_wss = false; enable_mux = true }

test_forward_conn_leaks :
    closes left (forward_conn tls_config broken_remote).0
    ≡ reached_tunnel (forward_conn tls_config broken_remote).1
test_forward_conn_leaks = forward_conn_leaks tls_config broken_remote

-- A certificate can be made, and none can be loaded.
abbrev certificates : Certificates
certificates = record {
  crypto = some_crypto;
  random = rand_server_name first_letters tt 1 2;
  load = λ cert key. err 1;
}

abbrev server_config : ServerConfig
server_config = record zero_server_config {
  bind_addr = codes "0.0.0.0:443";
  dst_addr = codes "127.0.0.1:80";
  enable_mux = true;
  timeout = pos 300;
}

test_server_built :
    new_server certificates server_config ≡ ok (build_server server_config (some (7 ∷ [])))
unfolding generate_certificate rand_server_name rand_str rand_loop
test_server_built =
    new_server_accepts certificates server_config (some (7 ∷ [])) (λ e. cc) (λ e. cc)
      (300, refl, omega arith) (self_signed (7 ∷ []) refl refl refl refl refl)

test_new_server-Source :
    (new_server certificates server_config ≡ ok (build_server server_config (some (7 ∷ [])))) ↔ (
      (server_config.bind_addr ≢ [])
      × (server_config.dst_addr ≢ [])
      × IsPositive server_config.timeout
      × ((t : Option (List ℕ)) × Source certificates server_config t
          × (build_server server_config (some (7 ∷ [])) ≡ build_server server_config t)))
test_new_server-Source =
    new_server-Source certificates server_config (build_server server_config (some (7 ∷ [])))

-- The first subprotocol of the client, if the server has it.
abbrev first_common : List Bytes → List Bytes → Bytes
first_common server [] = []
first_common server (p ∷ ps) = if has p server then p else []

first_common-ChoosesOffered : ChoosesOffered first_common
first_common-ChoosesOffered server p h = rw h refl

uses_mux-negotiate_example :
    (uses_mux
        (first_common
          (build_server server_config (some (7 ∷ []))).upgrader.subprotocols
          (build_client (completed client_config (codes "example.com"))).ws_dialer.subprotocols)
        true
      ≡ true)
    × (uses_mux
          (first_common
            (new_mux false (pos 300)).upgrader.subprotocols
            (build_client (completed client_config (codes "example.com"))).ws_dialer.subprotocols)
          false
        ≡ true)
uses_mux-negotiate_example =
    uses_mux-negotiate first_common first_common-ChoosesOffered one_ip client_config
      (build_client (completed client_config (codes "example.com"))) test_client_built certificates
      server_config (build_server server_config (some (7 ∷ []))) test_server_built false (pos 300)

abbrev network : Network
network = record { dials = λ c. true; fails = λ c. true }

abbrev stream_round : Round
stream_round = record { closed = false; accept = ok 1; num_streams = 1 }

abbrev peer : Peer
peer = record {
  handshake = true;
  upgrade = some (codes "smux_off");
  session = ok tt;
  rounds = stream_round ∷ [];
  net = network;
}

-- A session that serves a stream and then gives an error.
abbrev breaking : Peer
breaking = record peer {
  rounds =
      stream_round ∷ (record { closed = false; accept = err (unexpected 3); num_streams = 1 }) ∷ [];
}

left_open-serve_conn_example : left_open left (serve_conn server_config breaking) ≡ false
left_open-serve_conn_example = left_open-serve_conn server_config breaking left tt

abbrev refusing : Peer
refusing = record peer { net = record { dials = λ c. false; fails = λ c. false } }

test_plain : uses_mux (codes "smux_off") server_config.enable_mux ≡ false
unfolding uses_mux bytes_dec
test_plain = refl

test_serve_http_leaks :
    (opens left (Serve.serve_http server_config refusing) ≡ true)
    × (closes left (Serve.serve_http server_config refusing) ≡ false)
test_serve_http_leaks =
    serve_http_leaks server_config refusing (codes "smux_off") refl test_plain refl

new_server-SelfSigned_example :
    (name : Bytes) × (cert : ℕ) × ((build_server server_config (some (7 ∷ []))).tls_certificates
      ≡ some (cert ∷ []))
    × IsNameFor server_config.server_name name
    × SelfSigned some_crypto name cert
new_server-SelfSigned_example =
    new_server-SelfSigned first_letters first_letters-IsBelow tt 1 2 some_crypto (λ cert key. err 1)
      server_config (build_server server_config (some (7 ∷ []))) test_server_built refl refl refl
