-- ===== src/Commands/Canonical.antt =====
-- What a command line of flags does, over the flags of any of the programs.
use mos_tls_tunnel.Prelude.{◌≡◌, refl, ◌∙◌, Bool, true, none, some, List, [], ◌∷◌, ◌++◌, Bytes}
use mos_tls_tunnel.GoStd.Flag.{
  Numbers, Setter, bool_flag, token, named, find_flag, found, act, set_value, parse_loop, accepts,
  waits,
}
use mos_tls_tunnel.Sip003.Options.{PluginOption, command_args}

-- The argument `-name` is read as the flag of that name.
abbrev pub IsFlagName : Bytes → Type 0
IsFlagName k = token (b'-' ∷ k) ≡ named k none

module _ {C : Type 0} (nums : Numbers) (flags : List (Bytes × Setter C)) where
  -- Options that are each used as declared, a boolean bare and any other with a value that it
  -- accepts, take the first value to the second.
  pub data Sets : List PluginOption → C → C → Type 0 where
    nil : {c : C} → Sets [] c c
    bare :
        {k : Bytes} {f : Bool → C → C} {os : List PluginOption} {c d : C}
        → IsFlagName k
        → find_flag k flags ≡ some (bool_flag f)
        → Sets os (f true c) d
        → Sets ((k, none) ∷ os) c d
    valued :
        {k v : Bytes} {s : Setter C} {os : List PluginOption} {c c' d : C}
        → IsFlagName k
        → find_flag k flags ≡ some s
        → found nums k (some s) none c ≡ waits s
        → set_value nums s v c ≡ accepts c'
        → Sets os c' d
        → Sets ((k, some v) ∷ os) c d

  pub parse_loop_bare :
      (k : Bytes) (f : Bool → C → C) (args : List Bytes) (c : C)
      → IsFlagName k
      → find_flag k flags ≡ some (bool_flag f)
      → parse_loop nums flags ((b'-' ∷ k) ∷ args) none c
        ≡ parse_loop nums flags args none (f true c)
  unfolding parse_loop act found
  parse_loop_bare k f args c n e = rw (parse_loop, n, act, e)

  parse_loop_valued :
      (k v : Bytes) (s : Setter C) (args : List Bytes) (c c' : C)
      → IsFlagName k
      → find_flag k flags ≡ some s
      → found nums k (some s) none c ≡ waits s
      → set_value nums s v c ≡ accepts c'
      → parse_loop nums flags ((b'-' ∷ k) ∷ v ∷ args) none c ≡ parse_loop nums flags args none c'
  unfolding parse_loop act
  parse_loop_valued k v s args c c' n e w a = rw (parse_loop, n, act, e, w, parse_loop, a)

  pub parse_loop-Sets :
      {os : List PluginOption} {c d : C} (rest : List Bytes)
      → Sets os c d
      → parse_loop nums flags (command_args os ++ rest) none c ≡ parse_loop nums flags rest none d
  parse_loop-Sets rest nil = refl
  parse_loop-Sets rest (bare n e sets) = parse_loop_bare _ _ _ _ n e ∙ parse_loop-Sets rest sets
  parse_loop-Sets rest (valued n e w a sets) =
      parse_loop_valued _ _ _ _ _ _ n e w a ∙ parse_loop-Sets rest sets
