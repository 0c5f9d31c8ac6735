-- ===== src/Tunnel/Timeout.antt =====
-- A tunnel that is idle ends (internal/core/common.go).
use mos_tls_tunnel.Prelude.{
  ℕ, ◌+◌, ◌≤◌, ◌≡◌, ◌≢◌, refl, subst, false, Option, none, some, List, [], ◌∷◌, ℤ, pos, negsuc,
  Bytes,
}
use mos_tls_tunnel.Tunnel.FirstErr.{IoError, eof, short_write, other}
use mos_tls_tunnel.Tunnel.Worker.{
  End, a_end, b_end, opposite, Deadline, unset, after, long_time_ago, conn, reporting, storing,
  expiring_src, expiring_dst, closing_src, closing_dst, returned, top, arm_read, got, arm_write,
  writing, Pc, reading, cleanup, Answer, step, step_pc, after_nr, after_read,
}
use mos_tls_tunnel.Tunnel.System.{System, worker, sys_step, IsLawful, Reach, next}
use mos_tls_tunnel.Tunnel.Liveness.{Turn, interleave, AllLawful, turns, HasLeft, both_return}
use mos_tls_tunnel.Tunnel.Deadlines.{IsIdle, IsIdleAt, Reach-Idle, Idle-at}

-- The clock has come to a deadline; a negative timeout is over at once.
abbrev pub Passed : ℕ → Deadline → Type 0
Passed now unset = ⊥
Passed now (after t (pos n)) = t + n ≤ now
Passed now (after t (negsuc n)) = t ≤ now + (n + 1)
Passed now long_time_ago = Unit {0}

-- What `net.Conn` documents: behind its deadline a read that has no data fails.
abbrev pub TimesOut : End → Answer → System → Type 0
TimesOut e i s = Passed i.now (conn e s.shared).read_deadline → (i.read ≡ []) × (i.er ≢ none)

abbrev pub HasStopped : Pc → Type 0
HasStopped (cleanup reporting err) = Unit {0}
HasStopped _ = ⊥

after_nr-stops :
    (buf : Bytes) (er : Option IoError) → buf ≡ [] → er ≢ none → HasStopped (after_nr buf er)
unfolding after_nr after_read
after_nr-stops (x ∷ buf) er h k = absurd (cc)
after_nr-stops [] none h k = absurd (k refl)
after_nr-stops [] (some eof) h k = tt
after_nr-stops [] (some short_write) h k = tt
after_nr-stops [] (some (other n)) h k = tt

reading-stops :
    (e : End) (i : Answer) (s : System)
    → (worker e s).pc ≡ reading
    → i.read ≡ []
    → i.er ≢ none
    → HasStopped (worker e (sys_step e i s)).pc
unfolding sys_step step step_pc
reading-stops a_end i s p h k = rw (p, step_pc) (after_nr-stops i.read i.er h k)
reading-stops b_end i s p h k = rw (p, step_pc) (after_nr-stops i.read i.er h k)

-- While no goroutine has reported, a read waits with the timeout of `openTunnel` as its deadline,
-- counted from some reading of the clock and not ended by the other goroutine; and where that
-- time has passed with no data, the goroutine leaves its loop.
pub ends_after_timeout :
    {timeout : ℤ} {s : System} (e : End) (i : Answer)
    → Reach timeout s
    → s.shared.fe.reported ≡ false
    → (worker e s).pc ≡ reading
    → TimesOut e i s
    → Passed i.now (conn e s.shared).read_deadline
    → IsIdle timeout (conn e s.shared).read_deadline × HasStopped (worker e (sys_step e i s)).pc
ends_after_timeout {timeout} {s} e i r n p times late =
    let t = times late in
    (
      subst (λ q. IsIdleAt timeout e q s.shared) p (Idle-at e (Reach-Idle r n)),
      reading-stops e i s p t.0 t.1,
    )

HasStopped-HasLeft : (p : Pc) → HasStopped p → HasLeft p
HasStopped-HasLeft (cleanup reporting err) h = tt
HasStopped-HasLeft (cleanup storing err) h = tt
HasStopped-HasLeft (cleanup expiring_src err) h = tt
HasStopped-HasLeft (cleanup expiring_dst err) h = tt
HasStopped-HasLeft (cleanup closing_src err) h = tt
HasStopped-HasLeft (cleanup closing_dst err) h = tt
HasStopped-HasLeft (cleanup returned err) h = tt
HasStopped-HasLeft top h = absurd h
HasStopped-HasLeft (arm_read t) h = absurd h
HasStopped-HasLeft reading h = absurd h
HasStopped-HasLeft (got buf er) h = absurd h
HasStopped-HasLeft (arm_write t buf er) h = absurd h
HasStopped-HasLeft (writing buf er) h = absurd h

-- While no goroutine has reported, a read waits with the timeout of `openTunnel` as its deadline,
-- counted from some reading of the clock and not ended by the other goroutine. Where that time has
-- passed and the read fails for it, the tunnel ends in every interleaving that lets its goroutine
-- take six more steps and then lets the other one take twelve: both have returned.
pub returns_after_timeout :
    {timeout : ℤ} {s : System} (e : End) (i : Answer) (first second : List Turn)
    → Reach timeout s
    → s.shared.fe.reported ≡ false
    → (worker e s).pc ≡ reading
    → IsLawful e i s
    → TimesOut e i s
    → Passed i.now (conn e s.shared).read_deadline
    → AllLawful first (sys_step e i s)
    → AllLawful second (interleave first (sys_step e i s))
    → 6 ≤ turns e first
    → 12 ≤ turns (opposite e) second
    → IsIdle timeout (conn e s.shared).read_deadline
      × ((x : Option IoError) × (y : Option IoError) × ((worker e
              (interleave second (interleave first (sys_step e i s)))).pc
            ≡ cleanup returned x)
          × ((worker (opposite e) (interleave second (interleave first (sys_step e i s)))).pc
              ≡ cleanup returned y))
returns_after_timeout {timeout} {s} e i first second r n p l times late k m six twelve =
    let (idle, stopped) = ends_after_timeout e i r n p times late in
    (
      idle,
      both_return e first second (sys_step e i s) (next e i r l) (HasStopped-HasLeft _ stopped) k m
          six twelve,
    )
