-- ===== src/Commands/MuServer.antt =====
-- cmd/mtt-mu-server/mu_server.go: `main` up to the call of `core.NewMUServer`.
use mos_tls_tunnel.Prelude.{◌*◌, List, [], ◌∷◌, Bytes, codes, pos, false, Result}
use mos_tls_tunnel.Config.{MuServerConfig, second}
use mos_tls_tunnel.GoStd.Flag.{Numbers, Setter, bool_flag, text_flag, duration_flag, parse}
use mos_tls_tunnel.Commands.Client.{Fatal, Started, check_flags}

abbrev pub mu_server_flags : List (Bytes × Setter MuServerConfig)
mu_server_flags =
    (codes "b", text_flag λ v c. record c { server_addr = v })
    ∷ (codes "bind-unix", bool_flag λ v c. record c { server_bind_unix = v })
    ∷ (codes "c", text_flag λ v c. record c { http_controller_addr = v })
    ∷ (codes "mux", bool_flag λ v c. record c { enable_mux = v })
    ∷ (codes "timeout", duration_flag λ v c. record c { timeout = v })
    ∷ (codes "cert", text_flag λ v c. record c { cert = v })
    ∷ (codes "key", text_flag λ v c. record c { key = v })
    ∷ (codes "disable-tls", bool_flag λ v c. record c { disable_tls = v })
    ∷ (codes "n", text_flag λ v c. record c { server_name = v })
    ∷ (codes "fast-open", bool_flag λ v c. record c { enable_tfo = v })
    ∷ (codes "verbose", bool_flag λ v c. record c { verbose = v })
    ∷ []

abbrev pub mu_server_defaults : MuServerConfig
mu_server_defaults = record {
  server_addr = [];
  server_bind_unix = false;
  http_controller_addr = [];
  key = [];
  cert = [];
  server_name = [];
  disable_tls = false;
  enable_mux = false;
  enable_tfo = false;
  timeout = pos (60 * second);
  verbose = false;
}

unfoldable pub mu_server_main : Numbers → List Bytes → Result Fatal (Started MuServerConfig)
unfolding parse
mu_server_main nums argv = check_flags (parse nums mu_server_flags argv mu_server_defaults)
