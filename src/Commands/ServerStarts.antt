-- ===== src/Commands/ServerStarts.antt =====
-- From the host of a plugin to the server that it starts.
use mos_tls_tunnel.Prelude.{
  ℕ, ◌≡◌, refl, sym, ap, ◌∙◌, true, Option, none, some, List, [], ◌∷◌, arith, Bytes, codes,
  bytes_dec, All, ok,
}
use mos_tls_tunnel.Config.{ServerConfig}
use mos_tls_tunnel.GoStd.Strings.{join, Lacks, cut}
use mos_tls_tunnel.GoStd.Flag.{Numbers, token, find_flag}
use mos_tls_tunnel.Sip003.Args.{
  Environment, Sip003Args, get_remote_addr, get_local_addr, get_sip003_args,
}
use mos_tls_tunnel.Sip003.Options.{PluginOption, plugin_options, IsClean}
use mos_tls_tunnel.Server.New.{Certificates, build_server, new_server}
use mos_tls_tunnel.Server.NewLaws.{Source, new_server_accepts}
use mos_tls_tunnel.Commands.Canonical.{Sets, nil, bare}
use mos_tls_tunnel.Commands.Client.{log_flags}
use mos_tls_tunnel.Commands.Server.{server_main, server_flags, server_defaults, overwrite_server}
use mos_tls_tunnel.Commands.Plugin.{server_main-Sets, server_main_plugin, parse_empty_option}
use mos_tls_tunnel.Commands.Running.{server_startup, or_dies}
use mos_tls_tunnel.Commands.Starts.{join_host_port-ne-nil}

-- The options of the server that stand alone.
pub data Toggle : Type 0 where
  bind_unix disable_tls wss mux fast_open verbose : Toggle

abbrev pub name_of : Toggle → Bytes
name_of bind_unix = codes "bind-unix"
name_of disable_tls = codes "disable-tls"
name_of wss = codes "wss"
name_of mux = codes "mux"
name_of fast_open = codes "fast-open"
name_of verbose = codes "verbose"

abbrev pub turn_on : Toggle → ServerConfig → ServerConfig
turn_on bind_unix c = record c { bind_unix = true }
turn_on disable_tls c = record c { disable_tls = true }
turn_on wss c = record c { enable_wss = true }
turn_on mux c = record c { enable_mux = true }
turn_on fast_open c = record c { enable_tfo = true }
turn_on verbose c = record c { verbose = true }

abbrev pub turn_all_on : List Toggle → ServerConfig → ServerConfig
turn_all_on [] c = c
turn_all_on (t ∷ ts) c = turn_all_on ts (turn_on t c)

abbrev pub options_of : List Toggle → List PluginOption
options_of [] = []
options_of (t ∷ ts) = (name_of t, none) ∷ options_of ts

name_of-IsClean : (t : Toggle) → Lacks b';' (name_of t) × Lacks b'=' (name_of t)
name_of-IsClean bind_unix = ground arith
name_of-IsClean disable_tls = ground arith
name_of-IsClean wss = ground arith
name_of-IsClean mux = ground arith
name_of-IsClean fast_open = ground arith
name_of-IsClean verbose = ground arith

options_of-IsClean : (ts : List Toggle) → All IsClean (options_of ts)
options_of-IsClean [] = tt
options_of-IsClean (t ∷ ts) = (name_of-IsClean t, options_of-IsClean ts)

options_of-Sets :
    (nums : Numbers) (ts : List Toggle) (c : ServerConfig)
    → Sets nums server_flags (options_of ts) c (turn_all_on ts c)
unfolding token cut find_flag bytes_dec
options_of-Sets nums [] c = nil
options_of-Sets nums (bind_unix ∷ ts) c = bare refl refl (options_of-Sets nums ts _)
options_of-Sets nums (disable_tls ∷ ts) c = bare refl refl (options_of-Sets nums ts _)
options_of-Sets nums (wss ∷ ts) c = bare refl refl (options_of-Sets nums ts _)
options_of-Sets nums (mux ∷ ts) c = bare refl refl (options_of-Sets nums ts _)
options_of-Sets nums (fast_open ∷ ts) c = bare refl refl (options_of-Sets nums ts _)
options_of-Sets nums (verbose ∷ ts) c = bare refl refl (options_of-Sets nums ts _)

-- What `NewServer` checks is not touched.
record IsAlike (c d : ServerConfig) : Type 0 where
  same_bind : d.bind_addr ≡ c.bind_addr
  same_dst : d.dst_addr ≡ c.dst_addr
  same_timeout : d.timeout ≡ c.timeout

turn_on-IsAlike : (t : Toggle) (c : ServerConfig) → IsAlike c (turn_on t c)
turn_on-IsAlike bind_unix c = record { same_bind = refl; same_dst = refl; same_timeout = refl }
turn_on-IsAlike disable_tls c = record { same_bind = refl; same_dst = refl; same_timeout = refl }
turn_on-IsAlike wss c = record { same_bind = refl; same_dst = refl; same_timeout = refl }
turn_on-IsAlike mux c = record { same_bind = refl; same_dst = refl; same_timeout = refl }
turn_on-IsAlike fast_open c = record { same_bind = refl; same_dst = refl; same_timeout = refl }
turn_on-IsAlike verbose c = record { same_bind = refl; same_dst = refl; same_timeout = refl }

turn_all_on-IsAlike : (ts : List Toggle) (c : ServerConfig) → IsAlike c (turn_all_on ts c)
turn_all_on-IsAlike [] c = record { same_bind = refl; same_dst = refl; same_timeout = refl }
turn_all_on-IsAlike (t ∷ ts) c =
    let one = turn_on-IsAlike t c in
    let rest = turn_all_on-IsAlike ts (turn_on t c) in
    record {
      same_bind = rest.same_bind ∙ one.same_bind;
      same_dst = rest.same_dst ∙ one.same_dst;
      same_timeout = rest.same_timeout ∙ one.same_timeout;
    }

host_server :
    (certs : Certificates) (a : Sip003Args) (d : ServerConfig) (x : Option (List ℕ))
    → IsAlike (overwrite_server a server_defaults) d
    → Source certs d x
    → new_server certs d ≡ ok (build_server d x)
unfolding get_remote_addr get_local_addr
host_server certs a d x v source =
    new_server_accepts certs d x
      (λ e. join_host_port-ne-nil a.ss_remote_host a.ss_remote_port (sym v.same_bind ∙ e))
      (λ e. join_host_port-ne-nil a.ss_local_host a.ss_local_port (sym v.same_dst ∙ e))
      (300000000000, v.same_timeout, omega arith) source

server_main-options_of :
    (nums : Numbers) (env : Environment) (argv : List Bytes) (a : Sip003Args) (ts : List Toggle)
    → get_sip003_args nums env argv ≡ ok (some a)
    → a.ss_plugin_options ≡ plugin_options (options_of ts)
    → server_main nums env argv
      ≡ ok (record { config = turn_all_on ts (overwrite_server a server_defaults); logged = none })
unfolding plugin_options join
server_main-options_of nums env argv a [] g e =
    server_main_plugin nums env argv a (([], none) ∷ []) g e (λ n. cc) ((tt, tt), tt)
    ∙ ap log_flags (parse_empty_option nums server_flags [] nil)
server_main-options_of nums env argv a (t ∷ ts) g e =
    server_main-Sets nums env argv a (options_of (t ∷ ts)) _ g e (λ n. cc)
      (options_of-IsClean (t ∷ ts)) (options_of-Sets nums (t ∷ ts) _)

-- Run as a plugin with any of the options that stand alone, the server always starts once it has
-- the certificate that they ask for: it listens on the remote address of the host and dials the
-- local one, and each option that is given is on.
pub server_starts :
    (nums : Numbers) (certs : Certificates) (env : Environment) (argv : List Bytes) (a : Sip003Args)
    (ts : List Toggle) (x : Option (List ℕ))
    → get_sip003_args nums env argv ≡ ok (some a)
    → a.ss_plugin_options ≡ plugin_options (options_of ts)
    → Source certs (turn_all_on ts (overwrite_server a server_defaults)) x
    → server_startup nums certs env argv
      ≡ ok (build_server (turn_all_on ts (overwrite_server a server_defaults)) x)
unfolding server_startup
server_starts nums certs env argv a ts x g e source =
    let c = overwrite_server a server_defaults in
    rw (server_main-options_of nums env argv a ts g e)
      (ap or_dies (host_server certs a (turn_all_on ts c) x (turn_all_on-IsAlike ts c) source))
