-- ===== src/Tests/Plugins.antt =====
-- A host that starts the programs of cmd as plugins.
use mos_tls_tunnel.Prelude.{
  ℕ, ◌≡◌, ◌↔◌, refl, Bool, true, false, none, some, List, [], ◌∷◌, arith, Bytes, codes, bytes_dec,
  same, pos, ok, err, All, if◌then◌else◌, not, ◌&&◌,
}
use mos_tls_tunnel.Config.{ClientConfig, ServerConfig}
use mos_tls_tunnel.GoStd.Strings.{split, join, Lacks, contains_byte, cut}
use mos_tls_tunnel.GoStd.Flag.{
  Numbers, token, stop, find_flag, bool_flag, parse, parse_loop, found, set_value,
}
use mos_tls_tunnel.Sip003.Args.{
  Environment, Sip003Args, get_sip003_args, get_sip003_args-Describes, Describes, lookups,
  args_from,
}
use mos_tls_tunnel.Sip003.Options.{
  PluginOption, plugin_options, command_args, IsClean, format_ss_plugin_options,
  format_ss_plugin_options-plugin_options,
}
use mos_tls_tunnel.Sip003.Errors.{first_bad, format_ss_plugin_options_error}
use mos_tls_tunnel.Commands.Canonical.{Sets, nil, bare, valued, IsFlagName}
use mos_tls_tunnel.Commands.Client.{client_flags, client_defaults, overwrite_client, client_main}
use mos_tls_tunnel.Commands.Server.{server_flags, server_defaults, overwrite_server, server_main}
use mos_tls_tunnel.Commands.Described
use mos_tls_tunnel.Commands.Described.{host_config, client_main-Described}
use mos_tls_tunnel.Commands.Plugin.{
  client_main-Sets, server_main-Sets, client_main_bool_value, client_main_empty_option,
}

abbrev pub nums : Numbers
nums = record { parse_int = λ s. (pos 8, true); parse_duration = λ s. (pos 1, true) }

abbrev options : List PluginOption
options = (codes "wss", none) ∷ (codes "n", some (codes "example.com")) ∷ []

contains_byte-Lacks : (b : ℕ) (s : Bytes) → contains_byte b s ≡ false → Lacks b s
unfolding contains_byte
contains_byte-Lacks b [] h = tt
contains_byte-Lacks b (c ∷ s) h = (ground arith, contains_byte-Lacks b s (ground arith))

-- No `;` and no `=`.
abbrev no_separator : Bytes → Bool
no_separator s = not (contains_byte b';' s) && not (contains_byte b'=' s)

no_separator-Lacks : (s : Bytes) → no_separator s ≡ true → Lacks b';' s × Lacks b'=' s
no_separator-Lacks s h =
    (contains_byte-Lacks b';' s (ground arith), contains_byte-Lacks b'=' s (ground arith))

abbrev looks_clean : List PluginOption → Bool
looks_clean [] = true
looks_clean ((k, none) ∷ os) = no_separator k && looks_clean os
looks_clean ((k, some v) ∷ os) = no_separator k && no_separator v && looks_clean os

looks_clean-IsClean : (os : List PluginOption) → looks_clean os ≡ true → All IsClean os
looks_clean-IsClean [] h = tt
looks_clean-IsClean ((k, none) ∷ os) h =
    (no_separator-Lacks k (ground arith), looks_clean-IsClean os (ground arith))
looks_clean-IsClean ((k, some v) ∷ os) h =
    let (a, b) = no_separator-Lacks k (ground arith) in
    let (c, d) = no_separator-Lacks v (ground arith) in
    ((a, b, c, d), looks_clean-IsClean os (ground arith))

options-IsClean : All IsClean options
unfolding contains_byte
options-IsClean = looks_clean-IsClean options refl

format_ss_plugin_options-plugin_options_example :
    format_ss_plugin_options (plugin_options options) ≡ ok (command_args options)
format_ss_plugin_options-plugin_options_example =
    format_ss_plugin_options-plugin_options (codes "wss", none)
      ((codes "n", some (codes "example.com")) ∷ []) options-IsClean

test_format_ss_plugin_options_error :
    (format_ss_plugin_options (codes "wss;n=a=b") ≡ err (codes "n=a=b"))
    ↔ (first_bad (split b';' (codes "wss;n=a=b")) ≡ some (codes "n=a=b"))
test_format_ss_plugin_options_error =
    format_ss_plugin_options_error (codes "wss;n=a=b") (codes "n=a=b")

-- The environment of a plugin with this text of options.
abbrev pub host_env : Bytes → Environment
host_env spo v =
    if same v (codes "SS_REMOTE_HOST")
    then some (codes "1.2.3.4")
    else if same v (codes "SS_REMOTE_PORT")
    then some (codes "443")
    else if same v (codes "SS_LOCAL_HOST")
    then some (codes "127.0.0.1")
    else if same v (codes "SS_LOCAL_PORT")
    then some (codes "1080")
    else if same v (codes "SS_PLUGIN_OPTIONS")
    then some spo
    else none

abbrev pub host_args : Bytes → Sip003Args
host_args spo = record {
  ss_remote_host = codes "1.2.3.4";
  ss_remote_port = codes "443";
  ss_local_host = codes "127.0.0.1";
  ss_local_port = codes "1080";
  ss_plugin_options = spo;
  vpn = false;
  tfo = false;
}

test_get_sip003_args-Describes :
    Describes (lookups (host_env [])) (get_sip003_args nums (host_env []) [])
test_get_sip003_args-Describes = get_sip003_args-Describes nums (host_env []) []

pub test_args : (spo : Bytes) → get_sip003_args nums (host_env spo) [] ≡ ok (some (host_args spo))
unfolding get_sip003_args lookups args_from parse parse_loop bytes_dec
test_args spo = refl

abbrev options_text : Bytes
options_text = codes "wss;n=example.com"

test_options_text : options_text ≡ plugin_options options
unfolding plugin_options join
test_options_text = refl

abbrev client_expected : ClientConfig
client_expected = record (overwrite_client (host_args options_text) client_defaults) {
  enable_wss = true;
  server_name = codes "example.com";
}

options-client :
    Sets nums client_flags options
      (overwrite_client (host_args options_text) client_defaults)
      client_expected
unfolding token cut find_flag found set_value bytes_dec
options-client = bare refl refl (valued refl refl refl refl nil)

test_client_main-Sets :
    client_main nums (host_env options_text) []
    ≡ ok (record { config = client_expected; logged = none })
test_client_main-Sets =
    client_main-Sets nums (host_env options_text) [] (host_args options_text) options
      client_expected (test_args options_text) test_options_text (λ e. cc) options-IsClean
      options-client

abbrev client_described : ClientConfig
client_described = record (host_config (host_args options_text)) {
  enable_wss = true;
  server_name = codes "example.com";
}

client_main-Described_example :
    client_main nums (host_env options_text) []
    ≡ ok (record { config = client_described; logged = none })
client_main-Described_example =
    client_main-Described nums (host_env options_text) [] (host_args options_text) options
      client_described (test_args options_text) test_options_text (λ e. cc) options-IsClean
      (Described.wss (Described.n Described.nothing))

abbrev server_expected : ServerConfig
server_expected = record (overwrite_server (host_args options_text) server_defaults) {
  enable_wss = true;
  server_name = codes "example.com";
}

options-server :
    Sets nums server_flags options
      (overwrite_server (host_args options_text) server_defaults)
      server_expected
unfolding token cut find_flag found set_value bytes_dec
options-server = bare refl refl (valued refl refl refl refl nil)

test_server_main-Sets :
    server_main nums (host_env options_text) []
    ≡ ok (record { config = server_expected; logged = none })
test_server_main-Sets =
    server_main-Sets nums (host_env options_text) [] (host_args options_text) options
      server_expected (test_args options_text) test_options_text (λ e. cc) options-IsClean
      options-server

-- `mux=false` turns the multiplexer on, and `wss` behind it has no effect.
abbrev bad_text : Bytes
bad_text = codes "mux=false;wss"

abbrev bad_options : List PluginOption
bad_options = (codes "mux", some (codes "false")) ∷ (codes "wss", none) ∷ []

test_bad_text : bad_text ≡ plugin_options bad_options
unfolding plugin_options join
test_bad_text = refl

bad_options-IsClean : All IsClean bad_options
unfolding contains_byte
bad_options-IsClean = looks_clean-IsClean bad_options refl

test_mux_flag :
    IsFlagName (codes "mux")
    × (find_flag (codes "mux") client_flags ≡ some (bool_flag (λ v c. record c { enable_mux = v })))
    × (token (codes "false") ≡ stop)
unfolding token cut find_flag bytes_dec
test_mux_flag = (refl, refl, refl)

client_main_bool_value_example :
    client_main nums (host_env bad_text) []
    ≡ ok (record {
      config = record (overwrite_client (host_args bad_text) client_defaults) { enable_mux = true };
      logged = none;
    })
client_main_bool_value_example =
    client_main_bool_value nums (host_env bad_text) [] (host_args bad_text) []
      ((codes "wss", none) ∷ []) (codes "mux") (codes "false") (λ v c. record c { enable_mux = v })
      (overwrite_client (host_args bad_text) client_defaults) (test_args bad_text) test_bad_text
      bad_options-IsClean nil test_mux_flag.0 test_mux_flag.1 test_mux_flag.2

abbrev empty_text : Bytes
empty_text = codes ";wss"

abbrev empty_options : List PluginOption
empty_options = ([], none) ∷ (codes "wss", none) ∷ []

test_empty_text : empty_text ≡ plugin_options empty_options
unfolding plugin_options join
test_empty_text = refl

empty_options-IsClean : All IsClean empty_options
unfolding contains_byte
empty_options-IsClean = looks_clean-IsClean empty_options refl

test_client_main_empty_option :
    client_main nums (host_env empty_text) []
    ≡ ok
        (record { config = overwrite_client (host_args empty_text) client_defaults; logged = none })
test_client_main_empty_option =
    client_main_empty_option nums (host_env empty_text) [] (host_args empty_text) []
      ((codes "wss", none) ∷ []) (overwrite_client (host_args empty_text) client_defaults)
      (test_args empty_text) test_empty_text empty_options-IsClean nil
