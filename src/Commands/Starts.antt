-- ===== src/Commands/Starts.antt =====
-- From the host of a plugin to the client that it starts.
use mos_tls_tunnel.Prelude.{
  ℕ, ◌≡◌, ◌≢◌, inl, inr, refl, sym, ap, ◌∙◌, Bool, true, none, some, List, [], ◌∷◌, ◌++◌, arith,
  Bool-cases, if◌then◌else◌, Bytes, codes, bytes_dec, All, ok,
}
use mos_tls_tunnel.Config.{ClientConfig}
use mos_tls_tunnel.GoStd.Strings.{Lacks, cut, contains_byte, join, has_prefix}
use mos_tls_tunnel.GoStd.Flag.{Numbers, token, find_flag}
use mos_tls_tunnel.GoStd.Net.{
  join_host_port, split_host_port, split_host_port-join_host_port, IsPlain,
}
use mos_tls_tunnel.Sip003.Args.{
  Environment, Sip003Args, get_remote_addr, get_local_addr, get_sip003_args,
}
use mos_tls_tunnel.Sip003.Options.{PluginOption, plugin_options, IsClean}
use mos_tls_tunnel.Client.New.{Client, debug, error, is_nil, build_client}
use mos_tls_tunnel.Client.Checks.{IsAccepted, IsNamed, from_remote, given, completed, absolute}
use mos_tls_tunnel.Client.NewLaws.{new_client_accepts}
use mos_tls_tunnel.Commands.Canonical.{Sets, nil, bare}
use mos_tls_tunnel.Commands.Client.{client_flags, client_defaults, overwrite_client, client_main}
use mos_tls_tunnel.Commands.Described.{host_config}
use mos_tls_tunnel.Commands.Plugin.{client_main-Sets, client_main_empty_option}
use mos_tls_tunnel.Commands.Running.{client_startup, or_dies}

-- The options of the client that stand alone.
pub data Toggle : Type 0 where
  wss sv mux fast_open verbose : Toggle

abbrev pub name_of : Toggle → Bytes
name_of wss = codes "wss"
name_of sv = codes "sv"
name_of mux = codes "mux"
name_of fast_open = codes "fast-open"
name_of verbose = codes "verbose"

abbrev pub turn_on : Toggle → ClientConfig → ClientConfig
turn_on wss c = record c { enable_wss = true }
turn_on sv c = record c { insecure_skip_verify = true }
turn_on mux c = record c { enable_mux = true }
turn_on fast_open c = record c { enable_tfo = true }
turn_on verbose c = record c { verbose = true }

abbrev pub turn_all_on : List Toggle → ClientConfig → ClientConfig
turn_all_on [] c = c
turn_all_on (t ∷ ts) c = turn_all_on ts (turn_on t c)

abbrev pub options_of : List Toggle → List PluginOption
options_of [] = []
options_of (t ∷ ts) = (name_of t, none) ∷ options_of ts

name_of-IsClean : (t : Toggle) → Lacks b';' (name_of t) × Lacks b'=' (name_of t)
name_of-IsClean wss = ground arith
name_of-IsClean sv = ground arith
name_of-IsClean mux = ground arith
name_of-IsClean fast_open = ground arith
name_of-IsClean verbose = ground arith

options_of-IsClean : (ts : List Toggle) → All IsClean (options_of ts)
options_of-IsClean [] = tt
options_of-IsClean (t ∷ ts) = (name_of-IsClean t, options_of-IsClean ts)

options_of-Sets :
    (nums : Numbers) (ts : List Toggle) (c : ClientConfig)
    → Sets nums client_flags (options_of ts) c (turn_all_on ts c)
unfolding token cut find_flag bytes_dec
options_of-Sets nums [] c = nil
options_of-Sets nums (wss ∷ ts) c = bare refl refl (options_of-Sets nums ts _)
options_of-Sets nums (sv ∷ ts) c = bare refl refl (options_of-Sets nums ts _)
options_of-Sets nums (mux ∷ ts) c = bare refl refl (options_of-Sets nums ts _)
options_of-Sets nums (fast_open ∷ ts) c = bare refl refl (options_of-Sets nums ts _)
options_of-Sets nums (verbose ∷ ts) c = bare refl refl (options_of-Sets nums ts _)

same_names :
    (c d : ClientConfig) (name : Bytes)
    → d.server_name ≡ c.server_name
    → d.remote_addr ≡ c.remote_addr
    → IsNamed c name
    → IsNamed d name
same_names c d name n r (given h e) = given (λ f. h (sym n ∙ f)) (e ∙ sym n)
same_names c d name n r (from_remote port h e) = from_remote port (n ∙ h) (ap split_host_port r ∙ e)

IsAccepted-like :
    (is_ip : Bytes → Bool) (c d : ClientConfig) (name : Bytes)
    → d.bind_addr ≡ c.bind_addr
    → d.remote_addr ≡ c.remote_addr
    → d.timeout ≡ c.timeout
    → d.server_name ≡ c.server_name
    → d.mux_max_stream ≡ c.mux_max_stream
    → d.fallback_dns ≡ c.fallback_dns
    → IsAccepted is_ip c name
    → IsAccepted is_ip d name
IsAccepted-like is_ip c d name b r t n m f v = record {
  bound = λ e. v.bound (sym b ∙ e);
  remote = λ e. v.remote (sym r ∙ e);
  timed = rw t v.timed;
  named_as = same_names c d name n r v.named_as;
  streams = rw m v.streams;
  dns = rw f v.dns;
}

-- What `NewClient` checks is not touched.
turn_on-IsAccepted :
    (is_ip : Bytes → Bool) (t : Toggle) (c : ClientConfig) (name : Bytes)
    → IsAccepted is_ip c name
    → IsAccepted is_ip (turn_on t c) name
turn_on-IsAccepted is_ip wss c name v =
    IsAccepted-like is_ip c _ name refl refl refl refl refl refl v
turn_on-IsAccepted is_ip sv c name v =
    IsAccepted-like is_ip c _ name refl refl refl refl refl refl v
turn_on-IsAccepted is_ip mux c name v =
    IsAccepted-like is_ip c _ name refl refl refl refl refl refl v
turn_on-IsAccepted is_ip fast_open c name v =
    IsAccepted-like is_ip c _ name refl refl refl refl refl refl v
turn_on-IsAccepted is_ip verbose c name v =
    IsAccepted-like is_ip c _ name refl refl refl refl refl refl v

turn_all_on-IsAccepted :
    (is_ip : Bytes → Bool) (ts : List Toggle) (c : ClientConfig) (name : Bytes)
    → IsAccepted is_ip c name
    → IsAccepted is_ip (turn_all_on ts c) name
turn_all_on-IsAccepted is_ip [] c name v = v
turn_all_on-IsAccepted is_ip (t ∷ ts) c name v =
    turn_all_on-IsAccepted is_ip ts (turn_on t c) name (turn_on-IsAccepted is_ip t c name v)

append-ne-nil : (xs : Bytes) (y : ℕ) (ys : Bytes) → xs ++ (y ∷ ys) ≢ []
append-ne-nil [] y ys e = cc
append-ne-nil (x ∷ xs) y ys e = cc

pub join_host_port-ne-nil : (host port : Bytes) → join_host_port host port ≢ []
unfolding join_host_port
join_host_port-ne-nil host port = elim (Bool-cases (contains_byte b':' host)) [
  | inl v6 ↦ rw v6 (λ e. cc)
  | inr plain ↦ rw plain (append-ne-nil host b':' port)
]

-- The configuration that the host of a plugin describes without any option.
host-IsAccepted :
    (is_ip : Bytes → Bool) (a : Sip003Args)
    → IsPlain a.ss_remote_host a.ss_remote_port
    → IsAccepted is_ip (overwrite_client a client_defaults) a.ss_remote_host
unfolding get_remote_addr get_local_addr
host-IsAccepted is_ip a p = record {
  bound = join_host_port-ne-nil a.ss_local_host a.ss_local_port;
  remote = join_host_port-ne-nil a.ss_remote_host a.ss_remote_port;
  timed = (300000000000, refl, omega arith);
  named_as =
      from_remote a.ss_remote_port refl
        (split_host_port-join_host_port a.ss_remote_host a.ss_remote_port p);
  streams = (4, refl, omega arith, ground arith);
  dns = inl refl;
}

client_main-options_of :
    (nums : Numbers) (env : Environment) (argv : List Bytes) (a : Sip003Args) (ts : List Toggle)
    → get_sip003_args nums env argv ≡ ok (some a)
    → a.ss_plugin_options ≡ plugin_options (options_of ts)
    → client_main nums env argv
      ≡ ok (record { config = turn_all_on ts (overwrite_client a client_defaults); logged = none })
unfolding plugin_options join
client_main-options_of nums env argv a [] g e =
    client_main_empty_option nums env argv a [] [] _ g e ((tt, tt), tt) nil
client_main-options_of nums env argv a (t ∷ ts) g e =
    client_main-Sets nums env argv a (options_of (t ∷ ts)) _ g e (λ n. cc)
      (options_of-IsClean (t ∷ ts)) (options_of-Sets nums (t ∷ ts) _)

completed-turn_on :
    (t : Toggle) (c : ClientConfig) (name : Bytes)
    → completed (turn_on t c) name ≡ turn_on t (completed c name)
completed-turn_on wss c name = refl
completed-turn_on sv c name = refl
completed-turn_on mux c name = refl
completed-turn_on fast_open c name = refl
completed-turn_on verbose c name = refl

completed-turn_all_on :
    (ts : List Toggle) (c : ClientConfig) (name : Bytes)
    → completed (turn_all_on ts c) name ≡ turn_all_on ts (completed c name)
completed-turn_all_on [] c name = refl
completed-turn_all_on (t ∷ ts) c name =
    completed-turn_all_on ts (turn_on t c) name ∙ ap (turn_all_on ts) (completed-turn_on t c name)

-- What no option that stands alone changes.
record Keeps (c d : ClientConfig) : Type 0 where
  name_kept : d.server_name ≡ c.server_name
  path_kept : d.wss_path ≡ c.wss_path
  dns_kept : d.fallback_dns ≡ c.fallback_dns
  vpn_kept : d.vpn_mode ≡ c.vpn_mode

turn_on-Keeps : (t : Toggle) (c : ClientConfig) → Keeps c (turn_on t c)
turn_on-Keeps wss c = record {
  name_kept = refl;
  path_kept = refl;
  dns_kept = refl;
  vpn_kept = refl;
}
turn_on-Keeps sv c = record { name_kept = refl; path_kept = refl; dns_kept = refl; vpn_kept = refl }
turn_on-Keeps mux c = record {
  name_kept = refl;
  path_kept = refl;
  dns_kept = refl;
  vpn_kept = refl;
}
turn_on-Keeps fast_open c = record {
  name_kept = refl;
  path_kept = refl;
  dns_kept = refl;
  vpn_kept = refl;
}
turn_on-Keeps verbose c = record {
  name_kept = refl;
  path_kept = refl;
  dns_kept = refl;
  vpn_kept = refl;
}

turn_all_on-Keeps : (ts : List Toggle) (c : ClientConfig) → Keeps c (turn_all_on ts c)
turn_all_on-Keeps [] c = record {
  name_kept = refl;
  path_kept = refl;
  dns_kept = refl;
  vpn_kept = refl;
}
turn_all_on-Keeps (t ∷ ts) c =
    let first = turn_on-Keeps t c in
    let rest = turn_all_on-Keeps ts (turn_on t c) in
    record {
      name_kept = rest.name_kept ∙ first.name_kept;
      path_kept = rest.path_kept ∙ first.path_kept;
      dns_kept = rest.dns_kept ∙ first.dns_kept;
      vpn_kept = rest.vpn_kept ∙ first.vpn_kept;
    }

-- What the host asks for, with its remote host for the name of the server.
abbrev pub named_config : Sip003Args → ClientConfig
named_config a = record (host_config a) { server_name = a.ss_remote_host }

-- A client for this host with these options.
pub record StartsFor (a : Sip003Args) (ts : List Toggle) (cl : Client) : Type 0 where
  pub configured : cl.conf ≡ turn_all_on ts (named_config a)
  pub checks_name : cl.tls_conf.server_name ≡ a.ss_remote_host
  pub skips_verify : cl.tls_conf.insecure_skip_verify ≡ cl.conf.insecure_skip_verify
  pub over_url : cl.wss_url ≡ codes "wss://" ++ (a.ss_remote_host ++ codes "/")
  pub by_tls : cl.ws_dialer.tls_client_config ≡ cl.tls_conf
  pub offers :
      cl.ws_dialer.subprotocols
      ≡ (if cl.conf.enable_mux then codes "smux_on" else codes "smux_off") ∷ []
  pub protects : cl.tcp_config.vpn_mode ≡ a.vpn
  pub fast_opens : cl.tcp_config.tfo ≡ cl.conf.enable_tfo
  pub resolves : cl.resolver_dns ≡ none
  pub logs : cl.log_level ≡ (if cl.conf.verbose then debug else error)
  pub gives_up : (cl.dial_timeout ≡ 10000000000) × (cl.ws_dialer.handshake_timeout ≡ 10000000000)

built-StartsFor :
    (a : Sip003Args) (ts : List Toggle)
    → StartsFor a ts (build_client (turn_all_on ts (named_config a)))
unfolding build_client
built-StartsFor a ts =
    let k = turn_all_on-Keeps ts (named_config a) in
    record {
      configured = refl;
      checks_name = k.name_kept;
      skips_verify = refl;
      over_url =
          ap (λ x. codes "wss://" ++ (x ++ (turn_all_on ts (named_config a)).wss_path)) k.name_kept
          ∙ ap (λ x. codes "wss://" ++ (a.ss_remote_host ++ x)) k.path_kept;
      by_tls = refl;
      offers = refl;
      protects = k.vpn_kept;
      fast_opens = refl;
      resolves = ap (λ x. if is_nil x then none else some x) k.dns_kept;
      logs = refl;
      gives_up = (refl, refl);
    }

completed-host :
    (a : Sip003Args) (ts : List Toggle)
    → completed (turn_all_on ts (overwrite_client a client_defaults)) a.ss_remote_host
      ≡ turn_all_on ts (named_config a)
unfolding absolute has_prefix get_remote_addr get_local_addr
completed-host a ts = completed-turn_all_on ts (overwrite_client a client_defaults) a.ss_remote_host

-- Run as a plugin, for a remote host and port without brackets, the port without a colon, with any
-- of the options that stand alone, the client always starts: it listens on the local address of the
-- host and connects to the remote one, whose host it takes for the name of the server, with the
-- path `/`, a timeout of five minutes, at most four streams in a session and the VPN of the host,
-- and each option that is given is on.
pub client_starts :
    (nums : Numbers) (is_ip : Bytes → Bool) (env : Environment) (argv : List Bytes) (a : Sip003Args)
    (ts : List Toggle)
    → get_sip003_args nums env argv ≡ ok (some a)
    → a.ss_plugin_options ≡ plugin_options (options_of ts)
    → IsPlain a.ss_remote_host a.ss_remote_port
    → (cl : Client) × (client_startup nums is_ip env argv ≡ ok cl) × StartsFor a ts cl
unfolding client_startup
client_starts nums is_ip env argv a ts g e p =
    let d = turn_all_on ts (overwrite_client a client_defaults) in
    (
      build_client (turn_all_on ts (named_config a)),
      rw (client_main-options_of nums env argv a ts g e) (
          ap or_dies (
            new_client_accepts is_ip d a.ss_remote_host
              (turn_all_on-IsAccepted is_ip ts _ a.ss_remote_host (host-IsAccepted is_ip a p)))
          ∙ ap (λ x. ok (build_client x)) (completed-host a ts)),
      built-StartsFor a ts,
    )
