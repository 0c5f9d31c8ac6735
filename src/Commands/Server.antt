-- ===== src/Commands/Server.antt =====
-- cmd/mtt-server/server.go: `main` up to the call of `core.NewServer`.
use mos_tls_tunnel.Prelude.{◌*◌, List, [], ◌∷◌, Bytes, codes, pos, Result, ◌>>=◌}
use mos_tls_tunnel.Config.{ServerConfig, zero_server_config, second}
use mos_tls_tunnel.GoStd.Flag.{Numbers, Setter, bool_flag, text_flag, duration_flag}
use mos_tls_tunnel.Sip003.Args.{
  Environment, Sip003Args, get_remote_addr, get_local_addr, get_sip003_args,
}
use mos_tls_tunnel.Commands.Client.{Fatal, Started, plugin_or_flags, fatal_args}

abbrev pub server_flags : List (Bytes × Setter ServerConfig)
server_flags =
    (codes "b", text_flag λ v c. record c { bind_addr = v })
    ∷ (codes "bind-unix", bool_flag λ v c. record c { bind_unix = v })
    ∷ (codes "d", text_flag λ v c. record c { dst_addr = v })
    ∷ (codes "cert", text_flag λ v c. record c { cert = v })
    ∷ (codes "key", text_flag λ v c. record c { key = v })
    ∷ (codes "disable-tls", bool_flag λ v c. record c { disable_tls = v })
    ∷ (codes "n", text_flag λ v c. record c { server_name = v })
    ∷ (codes "wss", bool_flag λ v c. record c { enable_wss = v })
    ∷ (codes "wss-path", text_flag λ v c. record c { wss_path = v })
    ∷ (codes "mux", bool_flag λ v c. record c { enable_mux = v })
    ∷ (codes "timeout", duration_flag λ v c. record c { timeout = v })
    ∷ (codes "fast-open", bool_flag λ v c. record c { enable_tfo = v })
    ∷ (codes "verbose", bool_flag λ v c. record c { verbose = v })
    ∷ []

abbrev pub server_defaults : ServerConfig
server_defaults = record zero_server_config {
  wss_path = codes "/";
  timeout = pos (5 * 60 * second);
}

-- The server listens on the remote address of the plugin and dials the local one.
abbrev pub overwrite_server : Sip003Args → ServerConfig → ServerConfig
overwrite_server a c = record c {
  bind_addr = get_remote_addr a;
  dst_addr = get_local_addr a;
  enable_tfo = a.tfo;
}

unfoldable pub server_main :
    Numbers → Environment → List Bytes → Result Fatal (Started ServerConfig)
server_main nums env argv = do
  args ← fatal_args (get_sip003_args nums env argv)
  plugin_or_flags nums server_flags overwrite_server argv server_defaults args
