-- ===== src/Tests/Races.antt =====
-- Calls of `getMuxStream` of internal/core/client.go that race for one session.
use mos_tls_tunnel.Prelude.{ℕ, ◌≤◌, ◌≡◌, refl, none, some, arith, pos, Result, ok}
use mos_tls_tunnel.Streams.Session.{too_many_streams}
use mos_tls_tunnel.Streams.Shared.{failed, open_error, run_shared}
use mos_tls_tunnel.Streams.Shared.Within.{
  ClosesNoMore, IsWithin, AllLawfulSteps, run_shared-IsWithin,
}
use mos_tls_tunnel.Streams.Shared.Ending.{HasEnded, call_ends}
use mos_tls_tunnel.Streams.Shared.Race.{race, before_race, fresh_session_lost}
use mos_tls_tunnel.Tests.Sessions.{FakeSession, fake, fake_num, fake-IsSmux}

fake-ClosesNoMore : ClosesNoMore fake
fake-ClosesNoMore t none = omega arith
fake-ClosesNoMore t (some n) = omega arith

-- The session that is dialled has no stream yet.
abbrev fresh : FakeSession
fresh = some 0

abbrev dialled : Result ℕ FakeSession
dialled = ok fresh

at_most_one : (x : FakeSession) → dialled ≡ ok x → fake_num x ≤ 1
at_most_one none h = cc
at_most_one (some n) h = let e : fresh ≡ some n = cc in let f : 0 ≡ n = cc in omega arith

race-AllLawfulSteps : AllLawfulSteps fake 1 (race fake fresh)
race-AllLawfulSteps = (
  at_most_one,
  (at_most_one, (at_most_one, (at_most_one, (at_most_one, (at_most_one, (at_most_one, tt)))))),
)

run_shared-IsWithin_example :
    IsWithin fake 1 (run_shared fake (pos 1) (race fake fresh) (before_race fake fresh))
run_shared-IsWithin_example =
    run_shared-IsWithin fake fake-IsSmux fake-ClosesNoMore 1 (race fake fresh)
      (before_race fake fresh) race-AllLawfulSteps (λ id. omega arith)

call_ends_example :
    HasEnded fake ((run_shared fake (pos 1) (race fake fresh) (before_race fake fresh)).calls 0)
call_ends_example =
    call_ends fake (pos 1) 0 (race fake fresh) (before_race fake fresh) refl (omega arith)

test_fresh_session_lost :
    (run_shared fake (pos 1) (race fake fresh) (before_race fake fresh)).calls 0
    ≡ failed (open_error too_many_streams)
test_fresh_session_lost = fresh_session_lost fake fake-IsSmux fresh 0 refl refl refl
