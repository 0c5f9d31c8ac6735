-- ===== src/Tcp.antt =====
-- internal/core/tcp.go, tcp_unix.go, tcp_android_unix.go, tcp_android.go, tcp_windows.go and
-- tcp_other.go: what the control function does to a socket before it is used, on each platform.
pub mod Bypass
use mos_tls_tunnel.Prelude.{
  ℕ, Bool, true, false, Option, none, some, List, [], ◌∷◌, ◌++◌, if◌then◌else◌, Bytes, codes,
  Result, ok, err,
}

pub record TcpConfig : Type 0 where
  pub vpn_mode : Bool
  pub tfo : Bool

pub data Platform : Type 0 where
  linux android windows other_platform : Platform

-- The calls that reach the system, with what they answer: the option TCP_FASTOPEN_CONNECT is set to
-- 1, and the others are those of `sendFdToBypass`, from the socket for the VPN service on.
pub data Syscall : Type 0 where
  set_fast_open : ℕ → Syscall
  unix_socket : Result ℕ ℕ → Syscall
  set_receive_timeout set_send_timeout : (socket seconds : ℕ) → Syscall
  connect : ℕ → Bytes → Option ℕ → Syscall
  send_rights : (socket fd : ℕ) → Option ℕ → Syscall
  read_byte close_socket : ℕ → Syscall

-- What the system and the VPN service answer.
pub record Service : Type 0 where
  pub on_socket : Result ℕ ℕ
  pub on_connect : Option ℕ
  pub on_send : Option ℕ

abbrev pub protect_path : Bytes
protect_path = codes "protect_path"

abbrev pub unix_timeout : ℕ
unix_timeout = 3

-- From the sending of the descriptor on. The result of the last read is not looked at.
abbrev pub send_fd : ℕ → Option ℕ → ℕ → List Syscall
send_fd socket none fd = send_rights socket fd none ∷ read_byte socket ∷ []
send_fd socket (some e) fd = send_rights socket fd (some e) ∷ []

abbrev pub connect_and_send : Service → ℕ → Option ℕ → ℕ → List Syscall
connect_and_send v socket none fd = connect socket protect_path none ∷ send_fd socket v.on_send fd
connect_and_send v socket (some e) fd = connect socket protect_path (some e) ∷ []

-- From the deferred close on.
abbrev pub with_socket : Service → Result ℕ ℕ → ℕ → List Syscall
with_socket v (err e) fd = []
with_socket v (ok socket) fd =
    set_receive_timeout socket unix_timeout
    ∷ set_send_timeout socket unix_timeout
    ∷ (connect_and_send v socket v.on_connect fd ++ (close_socket socket ∷ []))

-- Errors are logged and no more.
unfoldable pub send_fd_to_bypass : Service → ℕ → List Syscall
send_fd_to_bypass v fd = unix_socket v.on_socket ∷ with_socket v v.on_socket fd

-- `setSockOpt`. An error of the call is logged and no more.
unfoldable pub set_sock_opt : Option TcpConfig → ℕ → List Syscall
set_sock_opt none fd = []
set_sock_opt (some c) fd = if c.tfo then set_fast_open fd ∷ [] else []

-- `c.Control(f)` runs `f` on the descriptor, or fails (`none`) and does not run it. `nil` fails with
-- a panic where its fields are read.
pub data Outcome : Type 0 where
  done : List Syscall → Outcome
  control_failed : List Syscall → Outcome
  nil_dereference : Outcome

abbrev pub run_control : Bool → List Syscall → List Syscall → Outcome
run_control true before acts = done (before ++ acts)
run_control false before acts = control_failed before

-- The function for android: `Control` is called once for each of two jobs.
unfoldable pub android_control : Service → TcpConfig → (first second : Bool) → ℕ → Outcome
unfolding set_sock_opt send_fd_to_bypass
android_control v c first second fd =
    if c.vpn_mode
    then (if first
        then run_control second (send_fd_to_bypass v fd) (set_sock_opt (some c) fd)
        else control_failed [])
    else run_control second [] (set_sock_opt (some c) fd)

-- `getControlFunc(conf)` on each platform; `none` where it returns no function.
unfoldable pub get_control_func :
    Platform → Service → Option TcpConfig → Option ((first second : Bool) (fd : ℕ) → Outcome)
unfolding set_sock_opt android_control
get_control_func linux v none = none
get_control_func linux v (some c) =
    some (λ first second fd. run_control second [] (set_sock_opt (some c) fd))
get_control_func android v none = some (λ first second fd. nil_dereference)
get_control_func android v (some c) = some (android_control v c)
get_control_func windows v conf = none
get_control_func other_platform v conf = none
