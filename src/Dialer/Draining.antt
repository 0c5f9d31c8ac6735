-- ===== src/Dialer/Draining.antt =====
-- `Close` of `dummyDialerListener` lets every call return.
use mos_tls_tunnel.Prelude.{
  ℕ, suc, ◌+◌, ◌≤◌, ◌≡◌, ◌⊎◌, inl, inr, ap, ◌∙◌, subst, refl, Bool, true, false, Bool-cases, Option,
  none, some, List, [], ◌∷◌, arith, All, length, ◌==◌, ==_refl, if◌then◌else◌,
}
use mos_tls_tunnel.Dialer.{
  err_closed_pipe, DummyDialerListener, take_out, meet, dial_fails, accept_fails, Step, dials,
  accepts, closes, meets, refuses_dial, refuses_accept, step, run,
}
use mos_tls_tunnel.Dialer.Counting.{of_behind}
use mos_tls_tunnel.Dialer.Laws.{of_and_then, if_some}

-- The number of calls that wait.
abbrev pub waiting : DummyDialerListener → ℕ
waiting d = length d.dialling + length d.accepting

-- A step by which a call returns.
abbrev pub IsReturn : Step → Type 0
IsReturn (meets i j) = Unit {0}
IsReturn (refuses_dial i) = Unit {0}
IsReturn (refuses_accept j) = Unit {0}
IsReturn _ = ⊥

length-take_out : (i : ℕ) (is js : List ℕ) → take_out i is ≡ some js → length is ≡ suc (length js)
length-take_out i [] js h = cc
length-take_out i (j ∷ is) js h = elim (Bool-cases (i == j)) [
  | inl same ↦
      let g : some is ≡ some js = rw same at h in
      let f : is ≡ js = cc in omega (arith, ap (λ (x : List ℕ). length x) f)
  | inr different ↦
      let (ks, f, g) = of_behind j (take_out i is) js (rw different at h) in
      omega (arith, length-take_out i is ks f, ap (λ (x : List ℕ). length x) g)
]

-- Closed, and with fewer calls that wait.
abbrev IsLess : DummyDialerListener → DummyDialerListener → Type 0
IsLess d e = (e.is_closed ≡ true) × (waiting e + 1 ≤ waiting d)

IsLess-of_some : (d c e : DummyDialerListener) → some c ≡ some e → IsLess d c → IsLess d e
IsLess-of_some d c e h v = let f : c ≡ e = cc in subst (λ x. IsLess d x) f v

meet-IsLess :
    (i j : ℕ) (o p : Option (List ℕ)) (d e : DummyDialerListener)
    → take_out i d.dialling ≡ o
    → take_out j d.accepting ≡ p
    → meet i j o p d ≡ some e
    → d.is_closed ≡ true
    → IsLess d e
meet-IsLess i j (some is) (some js) d e f g h c =
    IsLess-of_some d _ e h
      (c, omega (arith, length-take_out i d.dialling is f, length-take_out j d.accepting js g))
meet-IsLess i j none p d e f g h c = cc
meet-IsLess i j (some is) none d e f g h c = cc

dial_fails-IsLess :
    (i : ℕ) (o : Option (List ℕ)) (d e : DummyDialerListener)
    → take_out i d.dialling ≡ o
    → dial_fails i o d ≡ some e
    → d.is_closed ≡ true
    → IsLess d e
dial_fails-IsLess i none d e f h c = cc
dial_fails-IsLess i (some is) d e f h c =
    IsLess-of_some d _ e h (c, omega (arith, length-take_out i d.dialling is f))

accept_fails-IsLess :
    (j : ℕ) (o : Option (List ℕ)) (d e : DummyDialerListener)
    → take_out j d.accepting ≡ o
    → accept_fails j o d ≡ some e
    → d.is_closed ≡ true
    → IsLess d e
accept_fails-IsLess j none d e f h c = cc
accept_fails-IsLess j (some js) d e f h c =
    IsLess-of_some d _ e h (c, omega (arith, length-take_out j d.accepting js f))

step-IsLess :
    (s : Step) (d e : DummyDialerListener)
    → IsReturn s
    → step s d ≡ some e
    → d.is_closed ≡ true
    → IsLess d e
unfolding step
step-IsLess (meets i j) d e r h c = meet-IsLess i j _ _ d e refl refl h c
step-IsLess (refuses_dial i) d e r h c =
    dial_fails-IsLess i _ d e refl (if_some d.is_closed _ e h).1 c
step-IsLess (refuses_accept j) d e r h c =
    accept_fails-IsLess j _ d e refl (if_some d.is_closed _ e h).1 c
step-IsLess dials d e r h c = absurd r
step-IsLess accepts d e r h c = absurd r
step-IsLess closes d e r h c = absurd r

when_true :
    (b : Bool) (o p : Option DummyDialerListener) → b ≡ true → o ≡ p → (if b then o else none) ≡ p
when_true true o p h e = e
when_true false o p h e = cc

take_out_first : (i : ℕ) (is : List ℕ) → take_out i (i ∷ is) ≡ some is
take_out_first i is = rw (==_refl i) refl

-- A closed listener on which a call waits can go on.
goes_on :
    (is js : List ℕ) (d : DummyDialerListener)
    → d.dialling ≡ is
    → d.accepting ≡ js
    → d.is_closed ≡ true
    → (waiting d ≡ 0)
      ⊎ ((s : Step) × IsReturn s × ((e : DummyDialerListener) × (step s d ≡ some e)))
unfolding step
goes_on (i ∷ is) js d e f c = inr (
  refuses_dial i,
  tt,
  (
    record d { dialling = is; returned = (i, err_closed_pipe) ∷ d.returned },
    when_true d.is_closed _ _ c
        (ap (λ (o : Option (List ℕ)). dial_fails i o d) (ap (take_out i) e ∙ take_out_first i is)),
  ),
)
goes_on [] (j ∷ js) d e f c = inr (
  refuses_accept j,
  tt,
  (
    record d { accepting = js; returned = (j, err_closed_pipe) ∷ d.returned },
    when_true d.is_closed _ _ c (
        ap (λ (o : Option (List ℕ)). accept_fails j o d) (ap (take_out j) f ∙ take_out_first j js)),
  ),
)
goes_on [] [] d e f c =
    inl (omega (arith, ap (λ (x : List ℕ). length x) e, ap (λ (x : List ℕ). length x) f))

run-closed :
    (ss : List Step) (d e : DummyDialerListener)
    → All IsReturn ss
    → run ss d ≡ some e
    → d.is_closed ≡ true
    → (e.is_closed ≡ true) × (waiting e + length ss ≤ waiting d)
unfolding run
run-closed [] d e r h c =
    let f : d ≡ e = cc in
    subst (λ x. (x.is_closed ≡ true) × (waiting x + 0 ≤ waiting d)) f (c, omega arith)
run-closed (s ∷ ss) d e (r, rs) h c =
    let (m, f, g) = of_and_then (step s d) (run ss) e h in
    let (k, n) = step-IsLess s d m r f c in
    let (l, o) = run-closed ss m e rs g k in (l, omega (arith, n, o))

-- Once the listener is closed, and while no new call is made, each step lets a call return: there
-- are no more steps than calls that wait, and a next step is possible until no call waits.
pub closed_drains :
    (ss : List Step) (d e : DummyDialerListener)
    → d.is_closed ≡ true
    → All IsReturn ss
    → run ss d ≡ some e
    → (waiting e + length ss ≤ waiting d)
      × ((waiting e ≡ 0)
          ⊎ ((s : Step) × IsReturn s × ((f : DummyDialerListener) × (step s e ≡ some f))))
closed_drains ss d e c r h =
    let (k, n) = run-closed ss d e r h c in (n, goes_on e.dialling e.accepting e refl refl k)
