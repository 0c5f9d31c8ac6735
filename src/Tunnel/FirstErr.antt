-- ===== src/Tunnel/FirstErr.antt =====
-- `firstErr` of internal/core/common.go, with the errors of an I/O call.
use mos_tls_tunnel.Prelude.{ℕ, Bool, true, false, Option, none, if◌then◌else◌}

-- `io.EOF`, `io.ErrShortWrite`, and any other error by a number.
pub data IoError : Type 0 where
  eof short_write : IoError
  other : ℕ → IoError

-- `reportrOnce` has run or not; the stored error, if one is.
pub record FirstErr : Type 0 where
  pub reported : Bool
  pub stored : Option IoError

abbrev pub new_first_err : FirstErr
new_first_err = record { reported = false; stored = none }

-- The value `nil` is not stored.
unfoldable pub report : Option IoError → FirstErr → FirstErr
report e fe = if fe.reported then fe else record { reported = true; stored = e }

unfoldable pub get_err : FirstErr → Option IoError
get_err fe = fe.stored
