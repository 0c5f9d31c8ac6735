-- ===== src/Tests/Sessions.antt =====
-- The sessions of internal/core/cmux.go and internal/core/client.go over a small multiplexer, and
-- the loop of internal/core/common.go.
use mathlib.Core.List.{Mem}
use mos_tls_tunnel.Prelude.{
  ℕ, ◌+◌, ◌-◌, ◌≤◌, ◌<◌, ◌≡◌, ◌≢◌, ◌⊎◌, inl, inr, refl, Bool, true, false, Option, none, some, List,
  [], ◌∷◌, arith, pos, Result, ok, err,
}
use mos_tls_tunnel.Streams.Smux.{Smux, IsSmux}
use mos_tls_tunnel.Streams.Session.{
  too_many_streams, mux_open_stream, mux_stream_close, mux_open_stream_cases,
  mux_stream_close_cases,
}
use mos_tls_tunnel.Streams.Pool.{Visit, MuxStream, get_mux_stream}
use mos_tls_tunnel.Streams.PoolLaws.{AreWithin, Finds, get_mux_stream_reuses, get_mux_stream_dials}
use mos_tls_tunnel.Streams.PoolBounds.{entry, get_mux_stream-AreWithin, get_mux_stream_keeps}
use mos_tls_tunnel.Streams.Accept.{
  Round, handle, close_stream, warn_too_many, refused, by_limit, accept_loop, accept_loop_lem,
  accept_loop-ne-refused,
}

-- A session is closed, or has so many streams.
abbrev pub FakeSession : Type 0
FakeSession = Option ℕ

abbrev pub fake_closed : FakeSession → Bool
fake_closed none = true
fake_closed (some n) = false

abbrev pub fake_num : FakeSession → ℕ
fake_num none = 0
fake_num (some n) = n

abbrev pub fake_open : FakeSession → FakeSession × Result ℕ ℕ
fake_open none = (none, err 1)
fake_open (some n) = (some (n + 1), ok n)

abbrev pub fake_close_stream : ℕ → FakeSession → FakeSession
fake_close_stream t none = none
fake_close_stream t (some n) = some (n - 1)

abbrev pub fake : Smux
fake = record {
  Session = FakeSession;
  Stream = ℕ;
  Error = ℕ;
  is_closed = fake_closed;
  num_streams = fake_num;
  open_stream = fake_open;
  close_stream = fake_close_stream;
  close = λ s. none;
}

fake-closed_empty : (s : FakeSession) → fake_closed s ≡ true → fake_num s ≡ 0
fake-closed_empty none h = refl
fake-closed_empty (some n) h = cc

fake-open_counts :
    (s : FakeSession) (t : ℕ) → (fake_open s).1 ≡ ok t → fake_num (fake_open s).0 ≡ fake_num s + 1
fake-open_counts none t h = cc
fake-open_counts (some n) t h = refl

fake-open_open : (s : FakeSession) (t : ℕ) → (fake_open s).1 ≡ ok t → fake_closed s ≡ false
fake-open_open none t h = cc
fake-open_open (some n) t h = refl

fake-open_fails :
    (s : FakeSession) (e : ℕ) → (fake_open s).1 ≡ err e → fake_num (fake_open s).0 ≤ fake_num s
fake-open_fails none e h = omega arith
fake-open_fails (some n) e h = cc

pub fake-IsSmux : IsSmux fake
fake-IsSmux = record {
  closed_empty = fake-closed_empty;
  open_counts = fake-open_counts;
  open_open = fake-open_open;
  open_fails = fake-open_fails;
  close_closes = λ s. refl;
}

abbrev full_visit : Visit fake
full_visit = record { id = 1; checked = some 4; session = some 4 }

abbrev free_visit : Visit fake
free_visit = record { id = 2; checked = some 1; session = some 1 }

abbrev dead_visit : Visit fake
dead_visit = record { id = 3; checked = none; session = none }

abbrev pool : List (Visit fake)
pool = full_visit ∷ free_visit ∷ dead_visit ∷ []

test_get_mux_stream-AreWithin :
    AreWithin fake 4 (get_mux_stream fake (pos 4) pool 9 (ok (some 0))).0
test_get_mux_stream-AreWithin =
    get_mux_stream-AreWithin fake fake-IsSmux 4 pool 9 (ok (some 0))
      (omega arith, (omega arith, (omega arith, tt))) (omega arith)

get_mux_stream_reuses_example :
    (t : MuxStream fake) × ((get_mux_stream fake (pos 4) pool 9 (err 1)).1 ≡ ok t)
    × Finds fake 4 pool t
get_mux_stream_reuses_example =
    get_mux_stream_reuses fake 4 (full_visit ∷ []) free_visit (dead_visit ∷ []) 9 (err 1)
      (refl, omega arith, (1, refl))

test_get_mux_stream_keeps :
    Mem (entry fake full_visit) (get_mux_stream fake (pos 4) pool 9 (ok (some 0))).0
test_get_mux_stream_keeps =
    get_mux_stream_keeps fake 4 [] full_visit (free_visit ∷ dead_visit ∷ []) 9 (ok (some 0))
      (refl, omega arith)

test_get_mux_stream_dials :
    (get_mux_stream fake (pos 4) (full_visit ∷ dead_visit ∷ []) 9 (ok (some 0))).1
    ≡ ok (record { id = 9; stream = 0 })
test_get_mux_stream_dials =
    get_mux_stream_dials fake 4 (full_visit ∷ dead_visit ∷ []) 9 (some 0) 0
      (inl (refl, omega arith), (inr (inl refl), tt)) (omega arith) refl

test_mux_open_stream_cases :
    ((4 ≤ 4) × (mux_open_stream fake (pos 4) (some 4) ≡ (some 4, err too_many_streams)))
    ⊎ ((4 < 4) × ((mux_open_stream fake (pos 4) (some 4)).1 ≢ err too_many_streams))
test_mux_open_stream_cases = mux_open_stream_cases fake 4 (some 4)

test_mux_stream_close_cases :
    ((fake_num (some 0) ≡ 0) × (fake_closed (mux_stream_close fake 0 (some 1)) ≡ true))
    ⊎ ((fake_num (some 0) ≢ 0) × (mux_stream_close fake 0 (some 1) ≡ some 0))
test_mux_stream_close_cases = mux_stream_close_cases fake fake-IsSmux 0 (some 1)

abbrev served : ℕ → Round
served t = record { closed = false; accept = ok t; num_streams = 1 }

abbrev one_too_many : Round
one_too_many = record { closed = false; accept = ok 9; num_streams = 17 }

test_accept_loop_lem :
    accept_loop 16 (served 3 ∷ served 5 ∷ one_too_many ∷ [])
    ≡ (handle 3 ∷ handle 5 ∷ close_stream 9 ∷ warn_too_many ∷ [], refused)
test_accept_loop_lem =
    accept_loop_lem 16 (served 3 ∷ served 5 ∷ []) (3 ∷ 5 ∷ []) one_too_many []
      ((refl, refl, omega arith), ((refl, refl, omega arith), tt))
      (by_limit 9 refl refl (omega arith))

test_accept_loop-ne-refused : (accept_loop 16 (served 3 ∷ served 5 ∷ [])).1 ≢ refused
test_accept_loop-ne-refused =
    accept_loop-ne-refused 16 4 (served 3 ∷ served 5 ∷ []) (omega arith)
      (omega arith, (omega arith, tt))
