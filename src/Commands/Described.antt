-- ===== src/Commands/Described.antt =====
-- What the options of a plugin mean for the client, said without the flags of cmd/mtt-client.
use mos_tls_tunnel.Prelude.{
  ◌≡◌, refl, subst, sym, true, false, none, some, List, [], ◌∷◌, Bytes, codes, bytes_dec, ℤ, pos,
  All, ok, ◌≢◌,
}
use mos_tls_tunnel.Config.{ClientConfig}
use mos_tls_tunnel.GoStd.Strings.{cut}
use mos_tls_tunnel.GoStd.Net.{join_host_port}
use mos_tls_tunnel.GoStd.Flag.{Numbers, token, find_flag, found, set_value}
use mos_tls_tunnel.Sip003.Args.{
  Environment, Sip003Args, get_remote_addr, get_local_addr, get_sip003_args,
}
use mos_tls_tunnel.Sip003.Options.{PluginOption, plugin_options, IsClean}
use mos_tls_tunnel.Commands.Client.{client_flags, client_defaults, overwrite_client, client_main}
use mos_tls_tunnel.Commands.Canonical.{Sets, nil, bare, valued}
use mos_tls_tunnel.Commands.Plugin.{client_main-Sets}

-- The configuration that a host asks for without any option.
abbrev pub host_config : Sip003Args → ClientConfig
host_config a = record {
  bind_addr = join_host_port a.ss_local_host a.ss_local_port;
  remote_addr = join_host_port a.ss_remote_host a.ss_remote_port;
  enable_wss = false;
  wss_path = codes "/";
  enable_mux = false;
  mux_max_stream = pos 4;
  server_name = [];
  insecure_skip_verify = false;
  timeout = pos 300000000000;
  enable_tfo = a.tfo;
  vpn_mode = a.vpn;
  fallback_dns = [];
  verbose = false;
}

pub host_config_lem : (a : Sip003Args) → overwrite_client a client_defaults ≡ host_config a
unfolding get_remote_addr get_local_addr
host_config_lem a = refl

module _ (nums : Numbers) where
  -- What each option says, from the first one to the last.
  pub data Described : List PluginOption → ClientConfig → ClientConfig → Type 0 where
    nothing : {c : ClientConfig} → Described [] c c
    b :
        {v : Bytes} {os : List PluginOption} {c d : ClientConfig}
        → Described os (record c { bind_addr = v }) d
        → Described ((codes "b", some v) ∷ os) c d
    s :
        {v : Bytes} {os : List PluginOption} {c d : ClientConfig}
        → Described os (record c { remote_addr = v }) d
        → Described ((codes "s", some v) ∷ os) c d
    wss :
        {os : List PluginOption} {c d : ClientConfig}
        → Described os (record c { enable_wss = true }) d
        → Described ((codes "wss", none) ∷ os) c d
    wss_path :
        {v : Bytes} {os : List PluginOption} {c d : ClientConfig}
        → Described os (record c { wss_path = v }) d
        → Described ((codes "wss-path", some v) ∷ os) c d
    n :
        {v : Bytes} {os : List PluginOption} {c d : ClientConfig}
        → Described os (record c { server_name = v }) d
        → Described ((codes "n", some v) ∷ os) c d
    sv :
        {os : List PluginOption} {c d : ClientConfig}
        → Described os (record c { insecure_skip_verify = true }) d
        → Described ((codes "sv", none) ∷ os) c d
    mux :
        {os : List PluginOption} {c d : ClientConfig}
        → Described os (record c { enable_mux = true }) d
        → Described ((codes "mux", none) ∷ os) c d
    mux_max_stream :
        {v : Bytes} {k : ℤ} {os : List PluginOption} {c d : ClientConfig}
        → nums.parse_int v ≡ (k, true)
        → Described os (record c { mux_max_stream = k }) d
        → Described ((codes "mux-max-stream", some v) ∷ os) c d
    timeout :
        {v : Bytes} {k : ℤ} {os : List PluginOption} {c d : ClientConfig}
        → nums.parse_duration v ≡ (k, true)
        → Described os (record c { timeout = k }) d
        → Described ((codes "timeout", some v) ∷ os) c d
    fast_open :
        {os : List PluginOption} {c d : ClientConfig}
        → Described os (record c { enable_tfo = true }) d
        → Described ((codes "fast-open", none) ∷ os) c d
    fallback_dns :
        {v : Bytes} {os : List PluginOption} {c d : ClientConfig}
        → Described os (record c { fallback_dns = v }) d
        → Described ((codes "fallback-dns", some v) ∷ os) c d
    verbose :
        {os : List PluginOption} {c d : ClientConfig}
        → Described os (record c { verbose = true }) d
        → Described ((codes "verbose", none) ∷ os) c d

  Described-Sets :
      {os : List PluginOption} {c d : ClientConfig}
      → Described os c d
      → Sets nums client_flags os c d
  unfolding token cut find_flag bytes_dec found set_value
  Described-Sets nothing = nil
  Described-Sets (b q) = valued refl refl refl refl (Described-Sets q)
  Described-Sets (s q) = valued refl refl refl refl (Described-Sets q)
  Described-Sets (wss q) = bare refl refl (Described-Sets q)
  Described-Sets (wss_path q) = valued refl refl refl refl (Described-Sets q)
  Described-Sets (n q) = valued refl refl refl refl (Described-Sets q)
  Described-Sets (sv q) = bare refl refl (Described-Sets q)
  Described-Sets (mux q) = bare refl refl (Described-Sets q)
  Described-Sets (mux_max_stream e q) = valued refl refl refl (rw e refl) (Described-Sets q)
  Described-Sets (timeout e q) = valued refl refl refl (rw e refl) (Described-Sets q)
  Described-Sets (fast_open q) = bare refl refl (Described-Sets q)
  Described-Sets (fallback_dns q) = valued refl refl refl refl (Described-Sets q)
  Described-Sets (verbose q) = bare refl refl (Described-Sets q)

  -- Run as a plugin with at least one option, each with no `;` or `=` in its name or value, known
  -- to the client, bare exactly if it is boolean, and with a value that can be read, the client
  -- starts with the configuration that the options describe: it listens on the local address of
  -- the host and dials the remote one, TFO and VPN come from the host, what each option says
  -- replaces these and the defaults, in order, and no error is logged.
  pub client_main-Described :
      (env : Environment) (argv : List Bytes) (a : Sip003Args) (os : List PluginOption)
      (d : ClientConfig)
      → get_sip003_args nums env argv ≡ ok (some a)
      → a.ss_plugin_options ≡ plugin_options os
      → os ≢ []
      → All IsClean os
      → Described os (host_config a) d
      → client_main nums env argv ≡ ok (record { config = d; logged = none })
  client_main-Described env argv a os d g e h clean q =
      client_main-Sets nums env argv a os d g e h clean
        (subst (λ c. Sets nums client_flags os c d) (sym (host_config_lem a)) (Described-Sets q))
