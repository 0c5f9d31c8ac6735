-- ===== src/Tests/Users.antt =====
-- The multi-user server of internal/core/multi_user_server.go and
-- internal/core/multi_user_http_mux.go.
use mathlib.Core.List.{Mem, Nodup}
use mos_tls_tunnel.Prelude.{
  ◌≡◌, ◌≢◌, ◌↔◌, refl, true, false, Option, none, some, List, [], ◌∷◌, Bytes, codes, ℤ, pos,
  bytes_dec, length, dec_lt, arith, ok, ◌==◌, if◌then◌else◌,
}
use mos_tls_tunnel.Handlers.{left, warned, invalid_path, left_open}
use mos_tls_tunnel.Handlers.Tunnelled.{Network}
use mos_tls_tunnel.Server.Serve.{Peer, uses_mux}
use mos_tls_tunnel.Config.{MuServerConfig, ServerConfig, zero_server_config, default_smux_config}
use mos_tls_tunnel.Upgrader.{upgrader_of_servers}
use mos_tls_tunnel.Tests.Certificates.{some_crypto}
use mos_tls_tunnel.Server.New.{Certificates, tls_of}
use mos_tls_tunnel.MultiUser.Start.{
  new_mu_server, start_server, as_start_error, start_server-tls_of,
}
use mos_tls_tunnel.MultiUser.Table.{Args, Mux, new_mux, get, last_dst}
use mos_tls_tunnel.MultiUser.Controller
use mos_tls_tunnel.MultiUser.Controller.{
  MuCmd, MuRes, Json, Request, serve_all, opt_add, opt_ping, opt_del, res_ok, send_mu_res,
  read_limited, execute,
}
use mos_tls_tunnel.MultiUser.Spec.{command, is_valid, users_after, perform}
use mos_tls_tunnel.MultiUser.History.{get-serve_all}
use mos_tls_tunnel.MultiUser.Replies.{
  answer, written-serve_http, mux-serve_http_invalid, ping_counts_users,
}
use mos_tls_tunnel.MultiUser.Routing
use mos_tls_tunnel.MultiUser.Routing.{left_open-serve_http}
use mos_tls_tunnel.MultiUser.Isolation.{AllDialTo, serve_http-AllDialTo, serve_http-unknown}

abbrev alice : Args
alice = record { path = codes "/alice"; dst = codes "127.0.0.1:1" }

-- A format with three texts: a command that adds a user, a ping, and one that has no arguments.
abbrev unmarshal_text : Bytes → Option MuCmd
unmarshal_text [] = none
unmarshal_text (c ∷ _) =
    if c == b'a'
    then some (record { opt = opt_add; args_bunch = alice ∷ [] })
    else if c == b'p'
    then some (record { opt = opt_ping; args_bunch = [] })
    else if c == b'd'
    then some (record { opt = opt_del; args_bunch = [] })
    else none

abbrev marshal_res : MuRes → Option Bytes
marshal_res r = some (r.current_users ∷ r.err_string)

abbrev json : Json
json = record { unmarshal = unmarshal_text; marshal = marshal_res }

abbrev post : Bytes → Request
post b = record { method = codes "POST"; body = b; broken = false }

abbrev requests : List Request
requests = post (codes "a") ∷ post (codes "d") ∷ []

abbrev timeout : ℤ
timeout = pos 300

test_command : command json (post (codes "p")) ≡ some (record { opt = opt_ping; args_bunch = [] })
unfolding command bytes_dec dec_lt
test_command = refl

get-serve_all_example :
    get (codes "/alice") (serve_all json requests (new_mux true timeout))
    ≡ users_after json requests (λ _. none) (codes "/alice")
get-serve_all_example = get-serve_all json requests true timeout (codes "/alice")

test_users_after :
    users_after json requests (λ _. none) (codes "/alice") ≡ some (codes "127.0.0.1:1")
unfolding users_after command perform last_dst bytes_dec dec_lt
test_users_after = refl

abbrev quiet : Network
quiet = record { dials = λ _. true; fails = λ _. false }

abbrev visitor : Peer
visitor = record {
  handshake = true;
  upgrade = some (codes "smux_off");
  session = ok tt;
  rounds = [];
  net = quiet;
}

serve_http-AllDialTo_example :
    AllDialTo
      (codes "127.0.0.1:1")
      (Routing.serve_http (serve_all json requests (new_mux true timeout)) (codes "/alice") visitor)
serve_http-AllDialTo_example =
    serve_http-AllDialTo json requests true timeout (codes "/alice") visitor (codes "127.0.0.1:1")
      test_users_after

test_no_user : users_after json requests (λ _. none) (codes "/bob") ≡ none
unfolding users_after command perform last_dst bytes_dec dec_lt
test_no_user = refl

test_serve_http-unknown :
    Routing.serve_http (serve_all json requests (new_mux true timeout)) (codes "/bob") visitor
    ≡ warned (invalid_path (codes "/bob")) ∷ []
test_serve_http-unknown =
    serve_http-unknown json requests true timeout (codes "/bob") visitor test_no_user

written-serve_http_example :
    (Controller.serve_http json (post (codes "p")) (new_mux true timeout)).written
    ≡ answer json (command json (post (codes "p"))) (new_mux true timeout)
written-serve_http_example = written-serve_http json (post (codes "p")) (new_mux true timeout)

test_invalid : (c : MuCmd) → command json (post (codes "d")) ≡ some c → is_valid c ≡ false
unfolding command is_valid bytes_dec dec_lt
test_invalid c h = ground arith

test_mux-serve_http_invalid :
    (Controller.serve_http json (post (codes "d")) (new_mux true timeout)).mux
    ≡ new_mux true timeout
test_mux-serve_http_invalid =
    mux-serve_http_invalid json (post (codes "d")) (new_mux true timeout) test_invalid

test_ping_counts_users :
    (paths : List Bytes) × Nodup paths
    × ((p : Bytes) → Mem p paths ↔ (users_after json requests (λ _. none) p ≢ none))
    × ((Controller.serve_http json
          (post (codes "p"))
          (serve_all json requests (new_mux true timeout))).written
        ≡ send_mu_res json res_ok (length paths) [])
test_ping_counts_users =
    ping_counts_users json requests true timeout (post (codes "p"))
      (record { opt = opt_ping; args_bunch = [] }) test_command refl

abbrev alice_table : Mux
alice_table = record {
  path_map = (codes "/alice", codes "127.0.0.1:1") ∷ [];
  enable_mux = true;
  timeout = timeout;
  upgrader = upgrader_of_servers;
  smux_config = default_smux_config;
}

-- A client with smux, whose session is closed.
abbrev leaving : Peer
leaving = record visitor {
  upgrade = some (codes "smux_on");
  rounds = (record { closed = true; accept = ok 1; num_streams = 0 }) ∷ [];
}

left_open-serve_http_example :
    left_open left (Routing.serve_http alice_table (codes "/alice") leaving) ≡ false
unfolding get bytes_dec uses_mux
left_open-serve_http_example = left_open-serve_http alice_table (codes "/alice") leaving left tt

abbrev certificates : Certificates
certificates = record {
  crypto = some_crypto;
  random = some (codes "abc.d");
  load = λ cert key. ok 7;
}

abbrev mu_config : MuServerConfig
mu_config = record {
  server_addr = codes "0.0.0.0:443";
  server_bind_unix = false;
  http_controller_addr = codes "127.0.0.1:8080";
  key = codes "key";
  cert = codes "cert";
  server_name = [];
  disable_tls = false;
  enable_mux = true;
  enable_tfo = false;
  timeout = timeout;
  verbose = false;
}

abbrev same_settings : ServerConfig
same_settings = record zero_server_config { key = codes "key"; cert = codes "cert" }

test_start_server-tls_of :
    start_server certificates (ok tt) (new_mu_server mu_config)
    ≡ as_start_error (tls_of certificates same_settings)
test_start_server-tls_of =
    start_server-tls_of certificates mu_config same_settings refl refl refl refl
