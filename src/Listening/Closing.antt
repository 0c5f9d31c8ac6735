-- ===== src/Listening/Closing.antt =====
-- How `Start` ends.
use mos_tls_tunnel.Prelude.{
  ℕ, ◌-◌, ◌≤◌, ◌≡◌, ◌≢◌, refl, ap, ◌∙◌, true, false, Option, none, some, ◌⊎◌, inl, inr, List, [],
  ◌∷◌, ◌++◌, arith, Result, ok, err,
}
use mos_tls_tunnel.Listening.Lifecycle.{
  StartError, StartPc, listening, registering, serving, closing, returned, panicking, panicked,
  Mode, accepting, over_http, Endpoint, new_endpoint, Answer, on_accept, on_http, step_at,
  start_step, close, IsLawfulAt, Event, starts, closes, IsLawful, run, AllLawful, start_count,
}
use mos_tls_tunnel.Listening.Sound.{
  IsAt, IsSound, step_at-IsSound, close-IsAt, close-pc, run-IsSound, new_endpoint-IsSound,
}

-- A listener that is registered and was closed.
record IsShut (wss : Mode) (s : Endpoint) : Type 0 where
  set : s.registered ≡ true
  shut : s.is_open ≡ false
  sound : IsSound wss s

-- The steps of `Start` that are left once its listener is closed.
abbrev remaining : StartPc → ℕ
remaining listening = 4
remaining registering = 3
remaining serving = 2
remaining (closing e) = 1
remaining (returned e) = 0
remaining panicking = 1
remaining panicked = 0

step_at-shut :
    (wss : Mode) (i : Answer) (p : StartPc) (s : Endpoint)
    → s.pc ≡ p
    → IsLawfulAt wss i s p
    → s.registered ≡ true
    → s.is_open ≡ false
    → IsAt wss s p
    → ((step_at wss i p s).registered ≡ true)
      × ((step_at wss i p s).is_open ≡ false)
      × (remaining (step_at wss i p s).pc ≤ remaining p - 1)
step_at-shut wss i listening s e l r c h = ground arith
step_at-shut accepting i registering s e l r c h = ground arith
step_at-shut (over_http []) i registering s e l r c h = ground arith
step_at-shut (over_http (b ∷ path)) i registering s e l r c h = ground arith
step_at-shut (over_http path) i serving s e (l, k) r c h = on_http-shut i.http (k c)
  where
    on_http-shut :
        (o : Option (Option ℕ))
        → o ≢ none
        → ((on_http o s).registered ≡ true)
          × ((on_http o s).is_open ≡ false)
          × (remaining (on_http o s).pc ≤ 1)
    on_http-shut none n = absurd (n refl)
    on_http-shut (some none) n = (r, c, omega arith)
    on_http-shut (some (some x)) n = (r, c, omega arith)
step_at-shut accepting i serving s e l r c h = on_accept-shut i.accept (l c)
  where
    on_accept-shut :
        (o : Result ℕ ℕ)
        → ((x : ℕ) → o ≢ ok x)
        → ((on_accept o s).registered ≡ true)
          × ((on_accept o s).is_open ≡ false)
          × (remaining (on_accept o s).pc ≤ 1)
    on_accept-shut (ok x) n = absurd (n x refl)
    on_accept-shut (err x) n = (r, c, omega arith)
step_at-shut wss i (closing x) s e l r c h = (r, refl, omega arith)
step_at-shut wss i (returned x) s e l r c h = (r, c, ground arith)
step_at-shut wss i panicking s e l r c h = (r, refl, omega arith)
step_at-shut wss i panicked s e l r c h = (r, c, ground arith)

close-registered : (s : Endpoint) → (close s).registered ≡ s.registered
unfolding close
close-registered s = ground arith

close-is_open : (s : Endpoint) → s.registered ≡ true → (close s).is_open ≡ false
unfolding close
close-is_open s h = ground arith

close-IsShut :
    (wss : Mode) (s : Endpoint) → s.registered ≡ true → IsSound wss s → IsShut wss (close s)
close-IsShut wss s r h = record {
  set = close-registered s ∙ r;
  shut = close-is_open s r;
  sound = rw (close-pc s) (close-IsAt wss s.pc s h);
}

start_step-IsShut :
    (wss : Mode) (i : Answer) (s : Endpoint)
    → IsLawful wss (starts i) s
    → IsShut wss s
    → IsShut wss (start_step wss i s) × (remaining (start_step wss i s).pc ≤ remaining s.pc - 1)
unfolding start_step
start_step-IsShut wss i s l v =
    let (r, c, n) = step_at-shut wss i s.pc s refl l v.set v.shut v.sound in
    (record { set = r; shut = c; sound = step_at-IsSound wss i s.pc s refl l v.sound }, n)

run-IsShut :
    (wss : Mode) (es : List Event) (s : Endpoint)
    → AllLawful wss es s
    → IsShut wss s
    → IsShut wss (run wss es s) × (remaining (run wss es s).pc ≤ remaining s.pc - start_count es)
unfolding run
run-IsShut wss [] s l v = (v, omega arith)
run-IsShut wss (starts i ∷ es) s (l, ls) v =
    let (w, n) = start_step-IsShut wss i s l v in
    let (u, m) = run-IsShut wss es (start_step wss i s) ls w in (u, omega arith)
run-IsShut wss (closes ∷ es) s (l, ls) v =
    let (u, m) = run-IsShut wss es (close s) ls (close-IsShut wss s v.set v.sound) in
    (u, omega (arith, m, ap remaining (close-pc s)))

-- `Start` has returned an error, or it has panicked, which needs the branch of `EnableWSS` with an
-- empty path.
abbrev pub HasEnded : Mode → StartPc → Type 0
HasEnded wss p =
    ((e : StartError) × (p ≡ returned (some e))) ⊎ ((p ≡ panicked) × (wss ≡ over_http []))

ended_of_zero :
    (wss : Mode) (s : Endpoint) (p : StartPc) → remaining p ≤ 0 → IsAt wss s p → HasEnded wss p
ended_of_zero wss s (returned (some e)) h a = inl (e, refl)
ended_of_zero wss s (returned none) h a = absurd (a.1 refl)
ended_of_zero wss s panicked h a = inr (refl, a.1)
ended_of_zero wss s panicking h a = absurd (omega arith)
ended_of_zero wss s (closing e) h a = absurd (omega arith)
ended_of_zero wss s serving h a = absurd (omega arith)
ended_of_zero wss s registering h a = absurd (omega arith)
ended_of_zero wss s listening h a = absurd (omega arith)

remaining-le :
    (wss : Mode) (s : Endpoint) (p : StartPc) → s.registered ≡ true → IsAt wss s p → remaining p ≤ 2
remaining-le wss s listening r h = absurd (cc)
remaining-le wss s registering r h = absurd (cc)
remaining-le wss s serving r h = omega arith
remaining-le wss s (closing e) r h = omega arith
remaining-le wss s (returned e) r h = omega arith
remaining-le wss s panicking r h = omega arith
remaining-le wss s panicked r h = omega arith

-- Once `Start` has registered its listener, a call of `Close` ends it: whatever calls of `Close`
-- follow, after two more steps of its own `Start` has returned an error, if net and net/http answer
-- as they document (`AllLawful`), or else it has panicked, which it does only with `EnableWSS` and
-- an empty path.
pub close-returned :
    (wss : Mode) (before es : List Event)
    → AllLawful wss before new_endpoint
    → (run wss before new_endpoint).registered ≡ true
    → AllLawful wss es (close (run wss before new_endpoint))
    → 2 ≤ start_count es
    → HasEnded wss (run wss es (close (run wss before new_endpoint))).pc
close-returned wss before es l r ls n =
    let s = run wss before new_endpoint in
    let v =
      close-IsShut wss s r (run-IsSound wss before new_endpoint l (new_endpoint-IsSound wss)) in
    let (w, m) = run-IsShut wss es (close s) ls v in
    ended_of_zero wss (run wss es (close s)) _
      (omega (arith, m, n, remaining-le wss (close s) (close s).pc v.set v.sound)) w.sound

abbrev pub AllClose : List Event → Type 0
AllClose [] = Unit {0}
AllClose (closes ∷ es) = AllClose es
AllClose (starts i ∷ es) = ⊥

run-AllClose :
    (wss : Mode) (es fs : List Event) (s : Endpoint)
    → AllClose es
    → s.registered ≡ false
    → run wss (es ++ fs) s ≡ run wss fs s
unfolding run close
run-AllClose wss [] fs s a r = refl
run-AllClose wss (closes ∷ es) fs s a r =
    ap (run wss (es ++ fs)) (ground arith) ∙ run-AllClose wss es fs s a r
run-AllClose wss (starts i ∷ es) fs s a r = absurd a

-- Calls of `Close` that come before `Start` has registered its listener are lost, also when it
-- listens already: `Start` goes on to serve, with its listener open, where it does not panic.
pub close_lost :
    (wss : Mode) (first second : List Event) (i j : Answer)
    → AllClose first
    → AllClose second
    → i.listen ≡ none
    → wss ≢ over_http []
    → run wss (first ++ (starts i ∷ (second ++ (starts j ∷ [])))) new_endpoint
      ≡ record { pc = serving; registered = true; is_open = true; accepted = [] }
unfolding run start_step new_endpoint
close_lost (over_http []) first second i j a b h n = absurd (n refl)
close_lost accepting first second i j a b h n =
    run-AllClose accepting first _ new_endpoint a refl
    ∙ rw h (run-AllClose accepting second (starts j ∷ []) _ b refl)
close_lost (over_http (x ∷ path)) first second i j a b h n =
    let wss = over_http (x ∷ path) in
    run-AllClose wss first _ new_endpoint a refl
    ∙ rw h (run-AllClose wss second (starts j ∷ []) _ b refl)
