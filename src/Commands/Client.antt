-- ===== src/Commands/Client.antt =====
-- cmd/mtt-client/client.go: `main` up to the call of `core.NewClient`.
use mos_tls_tunnel.Prelude.{
  ◌*◌, Option, none, some, List, [], ◌∷◌, Bytes, codes, pos, Result, ok, err, ◌>>=◌,
}
use mos_tls_tunnel.Config.{ClientConfig, zero_client_config, second}
use mos_tls_tunnel.GoStd.Flag.{
  Numbers, Setter, bool_flag, text_flag, int_flag, duration_flag, ParseError, parse,
}
use mos_tls_tunnel.Sip003.Args.{
  Environment, Sip003Args, Sip003Error, get_remote_addr, get_local_addr, get_sip003_args,
}
use mos_tls_tunnel.Sip003.Options.{format_ss_plugin_options}

-- What the program dies of before it starts. The plugin's flags are not among the causes.
pub data Fatal : Type 0 where
  sip003_error : Sip003Error → Fatal
  invalid_options : Bytes → Fatal
  bad_flags : ParseError → Fatal

-- The configuration, and the error of the flags that was only logged.
pub record Started (C : Type 0) : Type 0 where
  pub config : C
  pub logged : Option ParseError

abbrev pub client_flags : List (Bytes × Setter ClientConfig)
client_flags =
    (codes "b", text_flag λ v c. record c { bind_addr = v })
    ∷ (codes "s", text_flag λ v c. record c { remote_addr = v })
    ∷ (codes "wss", bool_flag λ v c. record c { enable_wss = v })
    ∷ (codes "wss-path", text_flag λ v c. record c { wss_path = v })
    ∷ (codes "n", text_flag λ v c. record c { server_name = v })
    ∷ (codes "sv", bool_flag λ v c. record c { insecure_skip_verify = v })
    ∷ (codes "mux", bool_flag λ v c. record c { enable_mux = v })
    ∷ (codes "mux-max-stream", int_flag λ v c. record c { mux_max_stream = v })
    ∷ (codes "timeout", duration_flag λ v c. record c { timeout = v })
    ∷ (codes "fast-open", bool_flag λ v c. record c { enable_tfo = v })
    ∷ (codes "fallback-dns", text_flag λ v c. record c { fallback_dns = v })
    ∷ (codes "verbose", bool_flag λ v c. record c { verbose = v })
    ∷ []

-- The declaration of a flag stores its default.
abbrev pub client_defaults : ClientConfig
client_defaults = record zero_client_config {
  wss_path = codes "/";
  mux_max_stream = pos 4;
  timeout = pos (5 * 60 * second);
}

abbrev pub overwrite_client : Sip003Args → ClientConfig → ClientConfig
overwrite_client a c = record c {
  bind_addr = get_local_addr a;
  remote_addr = get_remote_addr a;
  enable_tfo = a.tfo;
  vpn_mode = a.vpn;
}

abbrev pub check_flags : {C : Type 0} → C × Option ParseError → Result Fatal (Started C)
check_flags (c, none) = ok (record { config = c; logged = none })
check_flags (c, some e) = err (bad_flags e)

abbrev pub log_flags : {C : Type 0} → C × Option ParseError → Result Fatal (Started C)
log_flags (c, e) = ok (record { config = c; logged = e })

abbrev pub parse_options :
    {C : Type 0}
    → Numbers
    → List (Bytes × Setter C)
    → C
    → Result Bytes (List Bytes)
    → Result Fatal (Started C)
parse_options nums flags c (err so) = err (invalid_options so)
parse_options nums flags c (ok opts) = log_flags (parse nums flags opts c)

-- The branch on `sip003Args != nil`, over the flags of any of the programs.
abbrev pub plugin_or_flags :
    {C : Type 0}
    → Numbers
    → List (Bytes × Setter C)
    → (Sip003Args → C → C)
    → List Bytes
    → C
    → Option Sip003Args
    → Result Fatal (Started C)
plugin_or_flags nums flags overwrite argv c none = check_flags (parse nums flags argv c)
plugin_or_flags nums flags overwrite argv c (some a) =
    parse_options nums flags (overwrite a c) (format_ss_plugin_options a.ss_plugin_options)

abbrev pub fatal_args : Result Sip003Error (Option Sip003Args) → Result Fatal (Option Sip003Args)
fatal_args (ok a) = ok a
fatal_args (err e) = err (sip003_error e)

unfoldable pub client_main :
    Numbers → Environment → List Bytes → Result Fatal (Started ClientConfig)
client_main nums env argv = do
  args ← fatal_args (get_sip003_args nums env argv)
  plugin_or_flags nums client_flags overwrite_client argv client_defaults args
