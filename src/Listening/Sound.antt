-- ===== src/Listening/Sound.antt =====
-- What holds of the listener wherever `Start` stands, in any order with calls of `Close`.
use mos_tls_tunnel.Prelude.{◌≡◌, ◌≢◌, refl, subst, true, false, Option, none, List, [], ◌∷◌, arith}
use mos_tls_tunnel.Listening.Lifecycle.{
  StartError, StartPc, listening, registering, serving, closing, returned, panicking, panicked,
  Mode, accepting, over_http, Endpoint, new_endpoint, Answer, step_at, start_step, close,
  IsLawfulAt, Event, starts, closes, after, IsLawful, run, AllLawful,
}

-- What the place of `Start` says of the listener and of its result.
abbrev pub IsAt : Mode → Endpoint → StartPc → Type 0
IsAt wss s listening = (s.registered ≡ false) × (s.is_open ≡ false)
IsAt wss s registering = (s.registered ≡ false) × (s.is_open ≡ true)
IsAt wss s serving = s.registered ≡ true
IsAt wss s (closing e) = (s.registered ≡ true) × (e ≢ none)
IsAt wss s (returned e) = (s.is_open ≡ false) × (e ≢ none)
IsAt wss s panicking = (s.registered ≡ true) × (wss ≡ over_http [])
IsAt wss s panicked = (s.is_open ≡ false) × (wss ≡ over_http [])

abbrev pub IsSound : Mode → Endpoint → Type 0
IsSound wss s = IsAt wss s s.pc

pub step_at-IsSound :
    (wss : Mode) (i : Answer) (p : StartPc) (s : Endpoint)
    → s.pc ≡ p
    → IsLawfulAt wss i s p
    → IsAt wss s p
    → IsSound wss (step_at wss i p s)
step_at-IsSound wss i listening s e l h = ground arith
step_at-IsSound accepting i registering s e l h = refl
step_at-IsSound (over_http []) i registering s e l h = (refl, refl)
step_at-IsSound (over_http (b ∷ path)) i registering s e l h = refl
step_at-IsSound (over_http path) i serving s e l h = ground arith
step_at-IsSound accepting i serving s e l h = ground arith
step_at-IsSound wss i (closing x) s e l h = (refl, h.1)
step_at-IsSound wss i (returned x) s e l h = rw e h
step_at-IsSound wss i panicking s e l h = (refl, h.1)
step_at-IsSound wss i panicked s e l h = rw e h

pub close-IsAt : (wss : Mode) (p : StartPc) (s : Endpoint) → IsAt wss s p → IsAt wss (close s) p
unfolding close
close-IsAt wss listening s h = ground arith
close-IsAt wss registering s h = ground arith
close-IsAt wss serving s h = ground arith
close-IsAt wss (closing e) s h = ground arith
close-IsAt wss (returned e) s h = ground arith
close-IsAt wss panicking s h = ground arith
close-IsAt wss panicked s h = ground arith

pub close-pc : (s : Endpoint) → (close s).pc ≡ s.pc
unfolding close
close-pc s = ground arith

pub after-IsSound :
    (wss : Mode) (e : Event) (s : Endpoint)
    → IsLawful wss e s
    → IsSound wss s
    → IsSound wss (after wss e s)
unfolding start_step
after-IsSound wss (starts i) s l h = step_at-IsSound wss i s.pc s refl l h
after-IsSound wss closes s l h = rw (close-pc s) (close-IsAt wss s.pc s h)

pub run-IsSound :
    (wss : Mode) (es : List Event) (s : Endpoint)
    → AllLawful wss es s
    → IsSound wss s
    → IsSound wss (run wss es s)
unfolding run
run-IsSound wss [] s l h = h
run-IsSound wss (e ∷ es) s (l, ls) h = run-IsSound wss es _ ls (after-IsSound wss e s l h)

pub new_endpoint-IsSound : (wss : Mode) → IsSound wss new_endpoint
unfolding new_endpoint
new_endpoint-IsSound wss = (refl, refl)

returned-IsSound :
    (wss : Mode) (s : Endpoint) (r : Option StartError)
    → s.pc ≡ returned r
    → IsSound wss s
    → (s.is_open ≡ false) × (r ≢ none)
returned-IsSound wss s r e h = subst (λ p. IsAt wss s p) e h

-- When `Start` has returned, in any order with calls of `Close`, its listener is not open, and its
-- result is an error, never `nil`, if net and net/http answer as they document (`AllLawful`).
pub run-returned :
    (wss : Mode) (es : List Event) (r : Option StartError)
    → AllLawful wss es new_endpoint
    → (run wss es new_endpoint).pc ≡ returned r
    → ((run wss es new_endpoint).is_open ≡ false) × (r ≢ none)
run-returned wss es r l e =
    returned-IsSound wss (run wss es new_endpoint) r e
      (run-IsSound wss es new_endpoint l (new_endpoint-IsSound wss))
