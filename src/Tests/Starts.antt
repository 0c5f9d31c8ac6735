-- ===== src/Tests/Starts.antt =====
-- A host that starts the client and the server of cmd with options that stand alone.
use mos_tls_tunnel.Prelude.{◌≡◌, refl, true, none, List, [], ◌∷◌, codes, ok}
use mos_tls_tunnel.GoStd.Strings.{contains_byte, join}
use mos_tls_tunnel.GoStd.Net.{IsPlain}
use mos_tls_tunnel.Sip003.Options.{plugin_options}
use mos_tls_tunnel.Client.New.{Client}
use mos_tls_tunnel.Server.New.{Certificates, build_server}
use mos_tls_tunnel.Server.NewLaws.{disabled}
use mos_tls_tunnel.Commands.Server.{server_defaults, overwrite_server}
use mos_tls_tunnel.Commands.Running.{client_startup, server_startup}
use mos_tls_tunnel.Commands.Starts
use mos_tls_tunnel.Commands.Starts.{StartsFor, client_starts}
use mos_tls_tunnel.Commands.ServerStarts
use mos_tls_tunnel.Commands.ServerStarts.{server_starts}
use mos_tls_tunnel.Tests.Plugins.{nums, host_env, host_args, test_args}
use mos_tls_tunnel.Tests.Certificates.{some_crypto}

IsPlain-host : IsPlain (codes "1.2.3.4") (codes "443")
unfolding contains_byte
IsPlain-host = record {
  port_colon = refl;
  host_open = refl;
  host_close = refl;
  port_open = refl;
  port_close = refl;
}

abbrev client_toggles : List Starts.Toggle
client_toggles = Starts.wss ∷ Starts.mux ∷ []

test_client_options : codes "wss;mux" ≡ plugin_options (Starts.options_of client_toggles)
unfolding plugin_options join
test_client_options = refl

client_starts_example :
    (cl : Client) × (client_startup nums (λ s. true) (host_env (codes "wss;mux")) [] ≡ ok cl)
    × StartsFor (host_args (codes "wss;mux")) client_toggles cl
client_starts_example =
    client_starts nums (λ s. true) (host_env (codes "wss;mux")) [] (host_args (codes "wss;mux"))
      client_toggles (test_args (codes "wss;mux")) test_client_options IsPlain-host

abbrev server_toggles : List ServerStarts.Toggle
server_toggles = ServerStarts.disable_tls ∷ ServerStarts.wss ∷ []

test_server_options :
    codes "disable-tls;wss" ≡ plugin_options (ServerStarts.options_of server_toggles)
unfolding plugin_options join
test_server_options = refl

abbrev certificates : Certificates
certificates = record { crypto = some_crypto; random = none; load = λ cert key. ok 7 }

test_server_starts :
    server_startup nums certificates (host_env (codes "disable-tls;wss")) []
    ≡ ok (
        build_server
          (ServerStarts.turn_all_on server_toggles
            (overwrite_server (host_args (codes "disable-tls;wss")) server_defaults))
          none)
test_server_starts =
    server_starts nums certificates (host_env (codes "disable-tls;wss")) []
      (host_args (codes "disable-tls;wss")) server_toggles none
      (test_args (codes "disable-tls;wss")) test_server_options (disabled refl refl)
