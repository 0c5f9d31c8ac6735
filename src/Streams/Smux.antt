-- ===== src/Streams/Smux.antt =====
-- github.com/xtaci/smux as a parameter: a session is an abstract state.
use mos_tls_tunnel.Prelude.{ℕ, ◌+◌, ◌≤◌, ◌≡◌, Bool, true, false, Result, ok, err}

pub record Smux : Type 1 where
  pub Session : Type 0
  pub Stream : Type 0
  pub Error : Type 0
  pub is_closed : Session → Bool
  pub num_streams : Session → ℕ
  pub open_stream : Session → Session × Result Error Stream
  pub close_stream : Stream → Session → Session
  pub close : Session → Session

-- What the program relies on: an open stream is counted, a failed attempt adds none, a closed
-- session opens no stream and counts none, and `Close` closes.
pub record IsSmux (S : Smux) : Type 0 where
  pub closed_empty : (s : S.Session) → S.is_closed s ≡ true → S.num_streams s ≡ 0
  pub open_counts :
      (s : S.Session) (t : S.Stream)
      → (S.open_stream s).1 ≡ ok t
      → S.num_streams (S.open_stream s).0 ≡ S.num_streams s + 1
  pub open_open :
      (s : S.Session) (t : S.Stream) → (S.open_stream s).1 ≡ ok t → S.is_closed s ≡ false
  pub open_fails :
      (s : S.Session) (e : S.Error)
      → (S.open_stream s).1 ≡ err e
      → S.num_streams (S.open_stream s).0 ≤ S.num_streams s
  pub close_closes : (s : S.Session) → S.is_closed (S.close s) ≡ true
