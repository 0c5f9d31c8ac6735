-- ===== src/Tcp/Bypass.antt =====
-- What the control function of android keeps to, whatever the system and the VPN service answer.
use mos_tls_tunnel.Prelude.{
  ℕ, ◌≡◌, refl, Bool, true, false, ◌&&◌, ◌||◌, ◌==◌, Option, none, some, List, [], ◌∷◌, ◌++◌,
  append-nil, subst, Bool-cases, Option-cases, ==_refl, inl, inr, Result, ok, err,
}
use mos_tls_tunnel.Tcp.{
  TcpConfig, Syscall, set_fast_open, unix_socket, set_receive_timeout, set_send_timeout, connect,
  send_rights, read_byte, close_socket, Service, with_socket, send_fd_to_bypass, set_sock_opt,
  Outcome, done, control_failed, nil_dereference, run_control, android_control,
}

-- How far the talk with the VPN service is: the socket that is open, if any, which of its timeouts
-- are set, and whether it is connected.
pub record Talk : Type 0 where
  pub receives_in_time : Bool
  pub sends_in_time : Bool
  pub connected : Bool

abbrev pub at_first : Talk
at_first = record { receives_in_time = false; sends_in_time = false; connected = false }

-- The rules: only one socket at a time, and every call on the one that is open; no connecting
-- without both timeouts; nothing is sent or read on a socket that is not connected; what is sent is
-- `fd`; TCP_FASTOPEN_CONNECT is for `fd`, while no socket is open; and none is open in the end.
abbrev pub obeys : ℕ → Option (ℕ × Talk) → List Syscall → Bool
obeys fd none [] = true
obeys fd (some t) [] = false
obeys fd none (unix_socket (ok s) ∷ calls) = obeys fd (some (s, at_first)) calls
obeys fd none (unix_socket (err e) ∷ calls) = obeys fd none calls
obeys fd none (set_fast_open g ∷ calls) = (g == fd) && obeys fd none calls
obeys fd none (_ ∷ calls) = false
obeys fd (some (s, t)) (set_receive_timeout r seconds ∷ calls) =
    (r == s) && obeys fd (some (s, record t { receives_in_time = true })) calls
obeys fd (some (s, t)) (set_send_timeout r seconds ∷ calls) =
    (r == s) && obeys fd (some (s, record t { sends_in_time = true })) calls
obeys fd (some (s, t)) (connect r path (some e) ∷ calls) =
    (r == s) && t.receives_in_time && t.sends_in_time && obeys fd (some (s, t)) calls
obeys fd (some (s, t)) (connect r path none ∷ calls) =
    (r == s)
    && t.receives_in_time
    && t.sends_in_time
    && obeys fd (some (s, record t { connected = true })) calls
obeys fd (some (s, t)) (send_rights r g e ∷ calls) =
    (r == s) && (g == fd) && t.connected && obeys fd (some (s, t)) calls
obeys fd (some (s, t)) (read_byte r ∷ calls) =
    (r == s) && t.connected && obeys fd (some (s, t)) calls
obeys fd (some (s, t)) (close_socket r ∷ calls) = (r == s) && obeys fd none calls
obeys fd (some (s, t)) (_ ∷ calls) = false

abbrev pub calls_of : Outcome → List Syscall
calls_of (done calls) = calls
calls_of (control_failed calls) = calls
calls_of nil_dereference = []

with_socket-obeys :
    (v : Service) (fd : ℕ) (r : Result ℕ ℕ) (rest : List Syscall)
    → obeys fd none rest ≡ true
    → obeys fd none (unix_socket r ∷ (with_socket v r fd ++ rest)) ≡ true
with_socket-obeys v fd (err e) rest h = h
with_socket-obeys v fd (ok s) rest h = elim (Option-cases v.on_connect) [
  | inr (e, f) ↦ rw (f, ==_refl s, h)
  | inl f ↦ elim (Option-cases v.on_send) [
    | inr (e, g) ↦ rw (f, g, ==_refl s, ==_refl fd, h)
    | inl g ↦ rw (f, g, ==_refl s, ==_refl fd, h)
  ]
]

set_sock_opt-obeys : (c : Option TcpConfig) (fd : ℕ) → obeys fd none (set_sock_opt c fd) ≡ true
unfolding set_sock_opt
set_sock_opt-obeys none fd = refl
set_sock_opt-obeys (some c) fd = elim (Bool-cases c.tfo) [
  | inl on ↦ rw (on, ==_refl fd)
  | inr off ↦ rw off refl
]

run_control-obeys :
    (again : Bool) (before : List Syscall) (c : Option TcpConfig) (fd : ℕ)
    → obeys fd none (before ++ set_sock_opt c fd) ≡ true
    → obeys fd none before ≡ true
    → obeys fd none (calls_of (run_control again before (set_sock_opt c fd))) ≡ true
run_control-obeys true before c fd h k = h
run_control-obeys false before c fd h k = k

android_control-keeps :
    (v : Service) (c : TcpConfig) (first second : Bool) (fd : ℕ)
    → obeys fd none (calls_of (android_control v c first second fd)) ≡ true
unfolding android_control send_fd_to_bypass
android_control-keeps v c first second fd = elim (Bool-cases c.vpn_mode) [
  | inr off ↦ rw off (run_control-obeys second [] (some c) fd (set_sock_opt-obeys (some c) fd) refl)
  | inl on ↦ elim (Bool-cases first) [
    | inr failed ↦ rw (on, failed) refl
    | inl called ↦
        rw (on, called)
          (run_control-obeys second (unix_socket v.on_socket ∷ with_socket v v.on_socket fd)
            (some c) fd
            (with_socket-obeys v fd v.on_socket (set_sock_opt (some c) fd)
              (set_sock_opt-obeys (some c) fd))
            (subst (λ calls. obeys fd none (unix_socket v.on_socket ∷ calls) ≡ true)
              (append-nil (with_socket v v.on_socket fd))
              (with_socket-obeys v fd v.on_socket [] refl)))
  ]
]

-- Whether the descriptor is handed over.
abbrev pub sends : ℕ → List Syscall → Bool
sends fd [] = false
sends fd (send_rights s g none ∷ calls) = (g == fd) || sends fd calls
sends fd (_ ∷ calls) = sends fd calls

abbrev pub answers_ok : Result ℕ ℕ → Bool
answers_ok (ok s) = true
answers_ok (err e) = false

abbrev pub is_none : Option ℕ → Bool
is_none none = true
is_none (some e) = false

abbrev pub accepts : Service → Bool
accepts v = answers_ok v.on_socket && (is_none v.on_connect && is_none v.on_send)

sends-set_sock_opt : (c : Option TcpConfig) (fd : ℕ) → sends fd (set_sock_opt c fd) ≡ false
unfolding set_sock_opt
sends-set_sock_opt none fd = refl
sends-set_sock_opt (some c) fd = elim (Bool-cases c.tfo) [
  | inl on ↦ rw on refl
  | inr off ↦ rw off refl
]

sends-with_socket :
    (v : Service) (fd : ℕ) (r : Result ℕ ℕ) (rest : List Syscall)
    → sends fd rest ≡ false
    → sends fd (with_socket v r fd ++ rest)
      ≡ answers_ok r && (is_none v.on_connect && is_none v.on_send)
sends-with_socket v fd (err e) rest h = h
sends-with_socket v fd (ok s) rest h = elim (Option-cases v.on_connect) [
  | inr (e, f) ↦ rw (f, h)
  | inl f ↦ elim (Option-cases v.on_send) [
    | inr (e, g) ↦ rw (f, g, h)
    | inl g ↦ rw (f, g, ==_refl fd) refl
  ]
]

sends-run_control :
    (v : Service) (again : Bool) (c : Option TcpConfig) (fd : ℕ)
    → sends fd (calls_of (run_control again (send_fd_to_bypass v fd) (set_sock_opt c fd)))
      ≡ accepts v
unfolding send_fd_to_bypass
sends-run_control v true c fd =
    sends-with_socket v fd v.on_socket (set_sock_opt c fd) (sends-set_sock_opt c fd)
sends-run_control v false c fd =
    rw (append-nil (with_socket v v.on_socket fd)) at (sends-with_socket v fd v.on_socket [] refl)

sends-run_control_nothing :
    (again : Bool) (c : Option TcpConfig) (fd : ℕ)
    → sends fd (calls_of (run_control again [] (set_sock_opt c fd))) ≡ false
sends-run_control_nothing true c fd = sends-set_sock_opt c fd
sends-run_control_nothing false c fd = refl

sends-android_control :
    (v : Service) (c : TcpConfig) (first second : Bool) (fd : ℕ)
    → sends fd (calls_of (android_control v c first second fd)) ≡ c.vpn_mode && (first && accepts v)
unfolding android_control
sends-android_control v c first second fd = elim (Bool-cases c.vpn_mode) [
  | inr off ↦ rw off (sends-run_control_nothing second (some c) fd)
  | inl on ↦ elim (Bool-cases first) [
    | inr failed ↦ rw (on, failed) refl
    | inl called ↦ rw (on, called) (sends-run_control v second (some c) fd)
  ]
]

-- On android, whatever the system and the VPN service answer, and whichever `Control` fails, the
-- calls keep to the rules (`obeys`): the socket for the service is closed again if it was opened,
-- it has both timeouts before it is connected, and nothing but the descriptor of the connection is
-- sent, over a connected socket. The descriptor is handed over exactly if VPN mode is on, the first
-- `Control` works, and the service accepts.
pub android_control-obeys :
    (v : Service) (c : TcpConfig) (first second : Bool) (fd : ℕ)
    → (obeys fd none (calls_of (android_control v c first second fd)) ≡ true)
      × (sends fd (calls_of (android_control v c first second fd))
          ≡ c.vpn_mode && (first && accepts v))
android_control-obeys v c first second fd =
    (android_control-keeps v c first second fd, sends-android_control v c first second fd)
