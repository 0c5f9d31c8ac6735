-- ===== src/Sip003/Args.antt =====
-- `SIP003Args` and `GetSIP003Args` of internal/core/sip003.go, and `ErrBrokenSIP003Args` of
-- internal/core/err.go. The environment is a function from a name to its value.
use mos_tls_tunnel.Prelude.{
  ◌≡◌, ◌≢◌, ◌⊎◌, Bool, true, false, not, ◌&&◌, ◌||◌, Option, none, some, List, [], ◌∷◌, arith,
  Bytes, codes, if◌then◌else◌, Result, ok, err,
}
use mos_tls_tunnel.GoStd.Flag.{Numbers, Setter, bool_flag, parse}
use mos_tls_tunnel.GoStd.Net.{join_host_port}

abbrev pub Environment : Type 0
Environment = Bytes → Option Bytes

pub record Sip003Args : Type 0 where
  pub ss_remote_host : Bytes
  pub ss_remote_port : Bytes
  pub ss_local_host : Bytes
  pub ss_local_port : Bytes
  pub ss_plugin_options : Bytes
  pub vpn : Bool
  pub tfo : Bool

unfoldable pub get_remote_addr : Sip003Args → Bytes
get_remote_addr a = join_host_port a.ss_remote_host a.ss_remote_port

unfoldable pub get_local_addr : Sip003Args → Bytes
get_local_addr a = join_host_port a.ss_local_host a.ss_local_port

pub data Sip003Error : Type 0 where
  broken_args : Sip003Error

-- The two values of `os.LookupEnv`.
abbrev value_of : Option Bytes → Bytes
value_of none = []
value_of (some v) = v

abbrev is_set : Option Bytes → Bool
is_set none = false
is_set (some v) = true

pub record Additional : Type 0 where
  pub tfo : Bool
  pub vpn : Bool

abbrev pub additional_flags : List (Bytes × Setter Additional)
additional_flags =
    (codes "fast-open", bool_flag λ b a. record a { tfo = b })
    ∷ (codes "V", bool_flag λ b a. record a { vpn = b })
    ∷ []

-- The results of the five look-ups.
pub record Lookups : Type 0 where
  pub srh : Option Bytes
  pub srp : Option Bytes
  pub slh : Option Bytes
  pub slp : Option Bytes
  pub spo : Option Bytes

unfoldable pub lookups : Environment → Lookups
lookups env = record {
  srh = env (codes "SS_REMOTE_HOST");
  srp = env (codes "SS_REMOTE_PORT");
  slh = env (codes "SS_LOCAL_HOST");
  slp = env (codes "SS_LOCAL_PORT");
  spo = env (codes "SS_PLUGIN_OPTIONS");
}

unfoldable pub args_from : Lookups → Additional → Result Sip003Error (Option Sip003Args)
args_from l additional =
    if is_set l.srh || is_set l.srp || is_set l.slh || is_set l.slp || is_set l.spo
    then (if not (is_set l.srh && is_set l.srp && is_set l.slh && is_set l.slp)
        then err broken_args
        else ok (
            some (record {
              ss_remote_host = value_of l.srh;
              ss_remote_port = value_of l.srp;
              ss_local_host = value_of l.slh;
              ss_local_port = value_of l.slp;
              ss_plugin_options = value_of l.spo;
              vpn = additional.vpn;
              tfo = additional.tfo;
            })))
    else ok none

-- `none` where the program does not run as a plugin. An error of the flags is ignored.
unfoldable pub get_sip003_args :
    Numbers → Environment → List Bytes → Result Sip003Error (Option Sip003Args)
unfolding lookups args_from parse
get_sip003_args nums env argv =
    args_from (lookups env)
      (parse nums additional_flags argv (record { tfo = false; vpn = false })).0

-- What each result says of the five variables.
abbrev pub Describes : Lookups → Result Sip003Error (Option Sip003Args) → Type 0
Describes l (ok none) =
    (l.srh ≡ none) × (l.srp ≡ none) × (l.slh ≡ none) × (l.slp ≡ none) × (l.spo ≡ none)
Describes l (ok (some r)) =
    (l.srh ≡ some r.ss_remote_host)
    × (l.srp ≡ some r.ss_remote_port)
    × (l.slh ≡ some r.ss_local_host)
    × (l.slp ≡ some r.ss_local_port)
    × ((l.spo ≡ some r.ss_plugin_options) ⊎ ((l.spo ≡ none) × (r.ss_plugin_options ≡ [])))
Describes l (err broken_args) =
    ((l.srh ≢ none) ⊎ (l.srp ≢ none) ⊎ (l.slh ≢ none) ⊎ (l.slp ≢ none) ⊎ (l.spo ≢ none))
    × ((l.srh ≡ none) ⊎ (l.srp ≡ none) ⊎ (l.slh ≡ none) ⊎ (l.slp ≡ none))

args_from-Describes : (l : Lookups) (a : Additional) → Describes l (args_from l a)
unfolding args_from
args_from-Describes l a = ground arith

-- `GetSIP003Args` finds no plugin exactly when none of the five variables is set, and returns the
-- arguments exactly when the four addresses are; SS_PLUGIN_OPTIONS may be missing and is then
-- empty. Any other environment is refused.
pub get_sip003_args-Describes :
    (nums : Numbers) (env : Environment) (argv : List Bytes)
    → Describes (lookups env) (get_sip003_args nums env argv)
unfolding get_sip003_args
get_sip003_args-Describes nums env argv = args_from-Describes (lookups env) _
