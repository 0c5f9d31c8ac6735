-- ===== src/GoStd/Flag.antt =====
-- Go's package `flag`: `FlagSet.Parse` with `ContinueOnError`, over the value that the flags fill.
-- The readers of integers and of durations are parameters. They give the value that is stored,
-- and whether the text was accepted: a flag that is refused stores a value too.
use mos_tls_tunnel.Prelude.{
  ℕ, Bool, true, false, ◌||◌, Option, none, some, List, [], ◌∷◌, Bytes, codes, same, bytes_dec,
  ◌==◌, if◌then◌else◌, ℤ, ite,
}
use mos_tls_tunnel.GoStd.Strings.{cut}

pub record Numbers : Type 0 where
  pub parse_int : Bytes → ℤ × Bool
  pub parse_duration : Bytes → ℤ × Bool

pub data Setter (C : Type 0) : Type 0 where
  bool_flag : (Bool → C → C) → Setter C
  text_flag : (Bytes → C → C) → Setter C
  int_flag : (ℤ → C → C) → Setter C
  duration_flag : (ℤ → C → C) → Setter C

pub data ParseError : Type 0 where
  bad_syntax undefined help needs_argument invalid_value : ParseError

-- `strconv.ParseBool`, with the value that is stored on an error.
unfoldable pub parse_bool : Bytes → Bool × Bool
unfolding bytes_dec
parse_bool s =
    if one_of (codes "1" ∷ codes "t" ∷ codes "T" ∷ codes "TRUE" ∷ codes "true" ∷ codes "True" ∷ [])
    then (true, true)
    else (
      false,
      one_of
          (codes "0" ∷ codes "f" ∷ codes "F" ∷ codes "FALSE" ∷ codes "false" ∷ codes "False" ∷ []),
    )
  where
    one_of : List Bytes → Bool
    one_of [] = false
    one_of (t ∷ ts) = if same s t then true else one_of ts

-- One argument: no flag (it ends the flags), a bad flag, or a flag with the value behind its `=`.
pub data Token : Type 0 where
  stop malformed : Token
  named : Bytes → Option Bytes → Token

abbrev with_value : ℕ → Option (Bytes × Bytes) → Bytes → Token
with_value c none rest = named (c ∷ rest) none
with_value c (some (name, value)) rest = named (c ∷ name) (some value)

abbrev flag_name : Bytes → Token
flag_name [] = malformed
flag_name (c ∷ rest) =
    if c == b'-' || c == b'=' then malformed else with_value c (cut b'=' rest) rest

abbrev behind_dash : ℕ → Bytes → Token
behind_dash d [] = if d == b'-' then stop else flag_name (d ∷ [])
behind_dash d (e ∷ rest) = if d == b'-' then flag_name (e ∷ rest) else flag_name (d ∷ e ∷ rest)

unfoldable pub token : Bytes → Token
token [] = stop
token (c ∷ []) = stop
token (c ∷ d ∷ rest) = if c == b'-' then behind_dash d rest else stop

-- What becomes of a flag: `parseOne` fails, a value is stored and accepted or refused, or the next
-- argument is needed.
pub data Act (C : Type 0) : Type 0 where
  fails : ParseError → Act C
  accepts : C → Act C
  refuses : C → Act C
  waits : Setter C → Act C

module _ {C : Type 0} where
  unfoldable pub find_flag : Bytes → List (Bytes × Setter C) → Option (Setter C)
  find_flag name [] = none
  find_flag name ((n, s) ∷ flags) = ite (bytes_dec n name) (some s) (find_flag name flags)

  abbrev verdict : C → Bool → Act C
  verdict c true = accepts c
  verdict c false = refuses c

  -- `Value.Set`
  unfoldable pub set_value : Numbers → Setter C → Bytes → C → Act C
  unfolding parse_bool
  set_value nums (bool_flag f) v c = let (b, good) = parse_bool v in verdict (f b c) good
  set_value nums (text_flag f) v c = accepts (f v c)
  set_value nums (int_flag f) v c = let (n, good) = nums.parse_int v in verdict (f n c) good
  set_value nums (duration_flag f) v c =
      let (n, good) = nums.parse_duration v in verdict (f n c) good

  unfoldable pub found : Numbers → Bytes → Option (Setter C) → Option Bytes → C → Act C
  unfolding bytes_dec
  found nums name none v c =
      if same name (codes "help") || same name (codes "h") then fails help else fails undefined
  found nums name (some s) (some v) c = set_value nums s v c
  found nums name (some (bool_flag f)) none c = accepts (f true c)
  found nums name (some (text_flag f)) none c = waits (text_flag f)
  found nums name (some (int_flag f)) none c = waits (int_flag f)
  found nums name (some (duration_flag f)) none c = waits (duration_flag f)

  unfoldable pub act : Numbers → List (Bytes × Setter C) → Token → C → Option (Act C)
  act nums flags stop c = none
  act nums flags malformed c = some (fails bad_syntax)
  act nums flags (named name v) c = some (found nums name (find_flag name flags) v c)

  -- `Parse`: the value after the last flag that was read, and the error if one stopped it. While
  -- a setter waits, the next argument is its value, whatever it looks like.
  unfoldable pub parse_loop :
      Numbers → List (Bytes × Setter C) → List Bytes → Option (Setter C) → C → C × Option ParseError
  parse_loop nums flags [] none c = (c, none)
  parse_loop nums flags [] (some s) c = (c, some needs_argument)
  parse_loop nums flags (v ∷ args) (some s) c = elim (set_value nums s v c) [
    | accepts c' ↦ parse_loop nums flags args none c'
    | refuses c' ↦ (c', some invalid_value)
    | _ ↦ (c, none)
  ]
  parse_loop nums flags (a ∷ args) none c = elim (act nums flags (token a) c) [
    | none ↦ (c, none)
    | some (fails e) ↦ (c, some e)
    | some (accepts c') ↦ parse_loop nums flags args none c'
    | some (refuses c') ↦ (c', some invalid_value)
    | some (waits s) ↦ parse_loop nums flags args (some s) c
  ]

  unfoldable pub parse : Numbers → List (Bytes × Setter C) → List Bytes → C → C × Option ParseError
  parse nums flags args c = parse_loop nums flags args none c
