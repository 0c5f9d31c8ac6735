-- ===== src/Commands/Plugin.antt =====
-- What the options of a plugin do, from their text to the configuration.
use mos_tls_tunnel.Prelude.{
  ◌≡◌, ◌≢◌, refl, sym, ◌∙◌, ap, Bool, true, none, some, List, [], ◌∷◌, ◌++◌, append-nil, Bytes, All,
  ok,
}
use mos_tls_tunnel.Config.{ClientConfig, ServerConfig}
use mos_tls_tunnel.GoStd.Flag.{
  Numbers, Setter, bool_flag, token, stop, find_flag, act, parse, parse_loop,
}
use mos_tls_tunnel.Sip003.Args.{Environment, Sip003Args, get_sip003_args}
use mos_tls_tunnel.Sip003.Options.{
  PluginOption, plugin_options, command_args, IsClean, format_ss_plugin_options,
  format_ss_plugin_options-plugin_options,
}
use mos_tls_tunnel.Commands.Client.{
  client_flags, client_defaults, overwrite_client, parse_options, client_main, log_flags,
}
use mos_tls_tunnel.Commands.Server.{server_flags, server_defaults, overwrite_server, server_main}
use mos_tls_tunnel.Commands.Canonical.{IsFlagName, Sets, parse_loop_bare, parse_loop-Sets}

command_args-append :
    (xs ys : List PluginOption) → command_args (xs ++ ys) ≡ command_args xs ++ command_args ys
command_args-append [] ys = refl
command_args-append ((k, none) ∷ xs) ys = ap (◌∷◌ (b'-' ∷ k)) (command_args-append xs ys)
command_args-append ((k, some v) ∷ xs) ys =
    ap (λ (t : List Bytes). (b'-' ∷ k) ∷ v ∷ t) (command_args-append xs ys)

append-ne-nil :
    (xs : List PluginOption) (y : PluginOption) (ys : List PluginOption) → xs ++ (y ∷ ys) ≢ []
append-ne-nil [] y ys e = cc
append-ne-nil (x ∷ xs) y ys e = cc

module _ {C : Type 0} (nums : Numbers) (flags : List (Bytes × Setter C)) where
  parse_loop-nil : (c : C) → parse_loop nums flags [] none c ≡ (c, none)
  unfolding parse_loop
  parse_loop-nil c = refl

  parse_loop_stop :
      (a : Bytes) (args : List Bytes) (c : C)
      → token a ≡ stop
      → parse_loop nums flags (a ∷ args) none c ≡ (c, none)
  unfolding parse_loop act
  parse_loop_stop a args c e = rw (parse_loop, e)

  parse-Sets :
      {os : List PluginOption} {c d : C}
      → Sets nums flags os c d
      → parse nums flags (command_args os) c ≡ (d, none)
  unfolding parse
  parse-Sets {os} {c} {d} sets =
      ap (λ (t : List Bytes). parse_loop nums flags t none c) (sym (append-nil (command_args os)))
      ∙ parse_loop-Sets nums flags [] sets
      ∙ parse_loop-nil d

  parse-Sets_append :
      {os : List PluginOption} {c d : C} (rest : List PluginOption)
      → Sets nums flags os c d
      → parse nums flags (command_args (os ++ rest)) c
        ≡ parse_loop nums flags (command_args rest) none d
  unfolding parse
  parse-Sets_append {os} rest sets =
      rw (command_args-append os rest) (parse_loop-Sets nums flags (command_args rest) sets)

  -- A boolean option with a value: the value is no flag, so it ends the flags.
  parse_bool_value :
      {os : List PluginOption} {c d : C} (k v : Bytes) (f : Bool → C → C) (rest : List PluginOption)
      → Sets nums flags os c d
      → IsFlagName k
      → find_flag k flags ≡ some (bool_flag f)
      → token v ≡ stop
      → parse nums flags (command_args (os ++ ((k, some v) ∷ rest))) c ≡ (f true d, none)
  parse_bool_value {d} k v f rest sets n e s =
      parse-Sets_append _ sets
      ∙ parse_loop_bare nums flags k f (v ∷ command_args rest) d n e
      ∙ parse_loop_stop v (command_args rest) (f true d) s

  pub parse_empty_option :
      {os : List PluginOption} {c d : C} (rest : List PluginOption)
      → Sets nums flags os c d
      → parse nums flags (command_args (os ++ (([], none) ∷ rest))) c ≡ (d, none)
  unfolding token
  parse_empty_option {d} rest sets =
      parse-Sets_append _ sets ∙ parse_loop_stop (b'-' ∷ []) (command_args rest) d refl

module _ (nums : Numbers) (env : Environment) (argv : List Bytes) (a : Sip003Args) where
  format_options :
      (o : PluginOption) (os : List PluginOption)
      → a.ss_plugin_options ≡ plugin_options (o ∷ os)
      → All IsClean (o ∷ os)
      → format_ss_plugin_options a.ss_plugin_options ≡ ok (command_args (o ∷ os))
  format_options o os e clean =
      ap format_ss_plugin_options e ∙ format_ss_plugin_options-plugin_options o os clean

  -- A program that runs as a plugin, with the options in the text form of the host.
  client_main_plugin :
      (os : List PluginOption)
      → get_sip003_args nums env argv ≡ ok (some a)
      → a.ss_plugin_options ≡ plugin_options os
      → os ≢ []
      → All IsClean os
      → client_main nums env argv
        ≡ log_flags (parse nums client_flags (command_args os) (overwrite_client a client_defaults))
  unfolding client_main
  client_main_plugin [] g e h _ = absurd (h refl)
  client_main_plugin (o ∷ os) g e _ clean = rw g (
      ap (parse_options nums client_flags (overwrite_client a client_defaults))
        (format_options o os e clean))

  pub server_main_plugin :
      (os : List PluginOption)
      → get_sip003_args nums env argv ≡ ok (some a)
      → a.ss_plugin_options ≡ plugin_options os
      → os ≢ []
      → All IsClean os
      → server_main nums env argv
        ≡ log_flags (parse nums server_flags (command_args os) (overwrite_server a server_defaults))
  unfolding server_main
  server_main_plugin [] g e h _ = absurd (h refl)
  server_main_plugin (o ∷ os) g e _ clean = rw g (
      ap (parse_options nums server_flags (overwrite_server a server_defaults))
        (format_options o os e clean))

  -- Run as a plugin with at least one option, none with a `;` or a `=` in its name or its
  -- value, and each used as declared, the client starts with the configuration that the options
  -- describe: its addresses, TFO and VPN come from the host, and the options are set, in order,
  -- on top of these and of the defaults. No error is logged.
  pub client_main-Sets :
      (os : List PluginOption) (d : ClientConfig)
      → get_sip003_args nums env argv ≡ ok (some a)
      → a.ss_plugin_options ≡ plugin_options os
      → os ≢ []
      → All IsClean os
      → Sets nums client_flags os (overwrite_client a client_defaults) d
      → client_main nums env argv ≡ ok (record { config = d; logged = none })
  client_main-Sets os d g e h clean sets =
      client_main_plugin os g e h clean ∙ ap log_flags (parse-Sets nums client_flags sets)

  -- Run as a plugin with at least one option, none with a `;` or a `=` in its name or its
  -- value, and each used as declared, the server starts with the configuration that the options
  -- describe: it listens on the remote address of the host and dials the local one, TFO comes
  -- from the host, and the options are set, in order, on top of these and of the defaults. No
  -- error is logged.
  pub server_main-Sets :
      (os : List PluginOption) (d : ServerConfig)
      → get_sip003_args nums env argv ≡ ok (some a)
      → a.ss_plugin_options ≡ plugin_options os
      → os ≢ []
      → All IsClean os
      → Sets nums server_flags os (overwrite_server a server_defaults) d
      → server_main nums env argv ≡ ok (record { config = d; logged = none })
  server_main-Sets os d g e h clean sets =
      server_main_plugin os g e h clean ∙ ap log_flags (parse-Sets nums server_flags sets)

  -- Behind options that are used as declared, an option of a boolean flag that is given a value
  -- which package flag does not take for a flag, as in `mux=false`, turns the flag on whatever
  -- the value says, and all options behind it are dropped with no error.
  pub client_main_bool_value :
      (os rest : List PluginOption) (k v : Bytes) (f : Bool → ClientConfig → ClientConfig)
      (d : ClientConfig)
      → get_sip003_args nums env argv ≡ ok (some a)
      → a.ss_plugin_options ≡ plugin_options (os ++ ((k, some v) ∷ rest))
      → All IsClean (os ++ ((k, some v) ∷ rest))
      → Sets nums client_flags os (overwrite_client a client_defaults) d
      → IsFlagName k
      → find_flag k client_flags ≡ some (bool_flag f)
      → token v ≡ stop
      → client_main nums env argv ≡ ok (record { config = f true d; logged = none })
  client_main_bool_value os rest k v f d g e clean sets n i s =
      client_main_plugin (os ++ ((k, some v) ∷ rest)) g e (append-ne-nil os _ rest) clean
      ∙ ap log_flags (parse_bool_value nums client_flags k v f rest sets n i s)

  -- Behind options that are used as declared, an empty option, as between two semicolons or
  -- before the first one, ends the options: those behind it are dropped with no error.
  pub client_main_empty_option :
      (os rest : List PluginOption) (d : ClientConfig)
      → get_sip003_args nums env argv ≡ ok (some a)
      → a.ss_plugin_options ≡ plugin_options (os ++ (([], none) ∷ rest))
      → All IsClean (os ++ (([], none) ∷ rest))
      → Sets nums client_flags os (overwrite_client a client_defaults) d
      → client_main nums env argv ≡ ok (record { config = d; logged = none })
  client_main_empty_option os rest d g e clean sets =
      client_main_plugin (os ++ (([], none) ∷ rest)) g e (append-ne-nil os _ rest) clean
      ∙ ap log_flags (parse_empty_option nums client_flags rest sets)
