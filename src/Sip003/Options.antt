-- ===== src/Sip003/Options.antt =====
-- `FormatSSPluginOptions` of internal/core/sip003.go.
use mos_tls_tunnel.Prelude.{
  ℕ, ◌≡◌, ◌∙◌, ap, Option, none, some, List, [], ◌∷◌, ◌++◌, append_assoc, append-nil, arith, Bytes,
  All, Result, ok, err,
}
use mos_tls_tunnel.GoStd.Strings.{split, join, Lacks, split_part, split_parts, split-join}

-- The arguments that an option gives, by the parts of its text at `=`.
unfoldable pub option_args : List Bytes → Option (List Bytes)
option_args (k ∷ []) = some ((b'-' ∷ k) ∷ [])
option_args (k ∷ v ∷ []) = some ((b'-' ∷ k) ∷ v ∷ [])
option_args _ = none

-- The loop over the options. An error carries the option.
unfoldable pub format_loop : List Bytes → List Bytes → Result Bytes (List Bytes)
format_loop [] out = ok out
format_loop (so ∷ rest) out = elim (option_args (split b'=' so)) [
  | none ↦ err so
  | some args ↦ format_loop rest (out ++ args)
]

unfoldable pub format_ss_plugin_options : Bytes → Result Bytes (List Bytes)
format_ss_plugin_options spo = format_loop (split b';' spo) []

-- The options of a plugin, a name with or without a value each, and their text.
abbrev pub PluginOption : Type 0
PluginOption = Bytes × Option Bytes

abbrev pub option_text : PluginOption → Bytes
option_text (k, none) = k
option_text (k, some v) = k ++ (b'=' ∷ v)

abbrev pub option_texts : List PluginOption → List Bytes
option_texts [] = []
option_texts (o ∷ os) = option_text o ∷ option_texts os

unfoldable pub plugin_options : List PluginOption → Bytes
plugin_options os = join b';' (option_texts os)

-- The command line that stands for the options.
abbrev pub command_args : List PluginOption → List Bytes
command_args [] = []
command_args ((k, none) ∷ os) = (b'-' ∷ k) ∷ command_args os
command_args ((k, some v) ∷ os) = (b'-' ∷ k) ∷ v ∷ command_args os

-- The separators do not stand in a name or a value.
abbrev pub IsClean : PluginOption → Type 0
IsClean (k, none) = Lacks b';' k × Lacks b'=' k
IsClean (k, some v) = Lacks b';' k × Lacks b'=' k × Lacks b';' v × Lacks b'=' v

Lacks-append : (b : ℕ) (x y : Bytes) → Lacks b x → Lacks b y → Lacks b (x ++ y)
Lacks-append b [] y hx hy = hy
Lacks-append b (c ∷ x) y (hc, hx) hy = (hc, Lacks-append b x y hx hy)

option_texts-Lacks : (os : List PluginOption) → All IsClean os → All (Lacks b';') (option_texts os)
option_texts-Lacks [] _ = tt
option_texts-Lacks ((k, none) ∷ os) ((h, _), rest) = (h, option_texts-Lacks os rest)
option_texts-Lacks ((k, some v) ∷ os) ((h, _, i, _), rest) =
    (Lacks-append b';' k (b'=' ∷ v) h (omega arith, i), option_texts-Lacks os rest)

format_loop_clean :
    (os : List PluginOption) (out : List Bytes)
    → All IsClean os
    → format_loop (option_texts os) out ≡ ok (out ++ command_args os)
unfolding format_loop option_args
format_loop_clean [] out _ = rw append-nil
format_loop_clean ((k, none) ∷ os) out ((_, h), rest) =
    rw (format_loop, split_part b'=' k h, format_loop_clean os _ rest, append_assoc)
format_loop_clean ((k, some v) ∷ os) out ((_, h, _, i), rest) = rw (
  format_loop,
  split_parts b'=' k v h,
  split_part b'=' v i,
  format_loop_clean os _ rest,
  append_assoc,
)

-- One or more options written in the form `name` or `name=value` and joined by `;` come back as
-- the command line `-name` or `-name value`, in order, if no name and no value holds a `;` or a
-- `=`.
pub format_ss_plugin_options-plugin_options :
    (o : PluginOption) (os : List PluginOption)
    → All IsClean (o ∷ os)
    → format_ss_plugin_options (plugin_options (o ∷ os)) ≡ ok (command_args (o ∷ os))
unfolding format_ss_plugin_options plugin_options
format_ss_plugin_options-plugin_options o os h =
    ap (λ ps. format_loop ps [])
      (split-join b';' (option_texts (o ∷ os)) (cc) (option_texts-Lacks (o ∷ os) h))
    ∙ format_loop_clean (o ∷ os) [] h
