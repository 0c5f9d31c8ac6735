-- ===== src/Dialer/Laws.antt =====
-- What `dummyDialerListener` promises: each call returns at most once, the two ends of a pipe go to
-- one call of `Dial` and one of `Accept`, and `Close` may be called at any time.
use mos_tls_tunnel.Prelude.{
  ℕ, suc, ◌+◌, ◌≤◌, ◌≡◌, subst, refl, Bool, true, false, Option, none, some, List, [], ◌∷◌, arith,
  ◌==◌, ltb, if◌then◌else◌,
}
use mos_tls_tunnel.Dialer.{
  DummyDialerListener, new_dummy_dialer_listener, take_out, dial, accept, meet, dial_fails,
  accept_fails, close_channel, close, Step, dials, accepts, closes, meets, refuses_dial,
  refuses_accept, step, and_then, run,
}
use mos_tls_tunnel.Dialer.Counting.{one_if, count, calls, nears, fars, count-take_out}

-- A call that was made waits or has returned, and only once; the ends of a pipe were returned
-- together, and the first one by the call that made it.
record IsSound (d : DummyDialerListener) : Type 0 where
  once :
      (k : ℕ)
      → count k d.dialling + count k d.accepting + calls k d.returned ≡ one_if (ltb k d.next)
  paired : (k : ℕ) → nears k d.returned ≡ fars k d.returned
  own : (k : ℕ) → nears k d.returned ≤ calls k d.returned
  as_once : d.is_closed ≡ d.close_once
  calm : d.panicked ≡ false

one_more : (k n : ℕ) → one_if (ltb k (suc n)) ≡ one_if (n == k) + one_if (ltb k n)
one_more k n = ground arith

dial-IsSound : (d : DummyDialerListener) → IsSound d → IsSound (dial d)
dial-IsSound d v = record {
  once = λ k. omega (arith, v.once k, one_more k d.next);
  paired = v.paired;
  own = v.own;
  as_once = v.as_once;
  calm = v.calm;
}

accept-IsSound : (d : DummyDialerListener) → IsSound d → IsSound (accept d)
accept-IsSound d v = record {
  once = λ k. omega (arith, v.once k, one_more k d.next);
  paired = v.paired;
  own = v.own;
  as_once = v.as_once;
  calm = v.calm;
}

close_when-IsSound :
    (b : Bool) (d : DummyDialerListener)
    → d.close_once ≡ b
    → IsSound d
    → IsSound (if b then d else close_channel (record d { close_once = true }))
close_when-IsSound true d h v = v
close_when-IsSound false d h v = record {
  once = v.once;
  paired = v.paired;
  own = v.own;
  as_once = refl;
  calm = rw (v.as_once, h, v.calm);
}

close-IsSound : (d : DummyDialerListener) → IsSound d → IsSound (close d)
unfolding close
close-IsSound d v = close_when-IsSound d.close_once d refl v

of_some : (d e : DummyDialerListener) → some d ≡ some e → IsSound d → IsSound e
of_some d e h v = subst (λ x. IsSound x) (some_injective h) v
  where
    some_injective : some d ≡ some e → d ≡ e
    some_injective h = cc

meet-IsSound :
    (i j : ℕ) (o p : Option (List ℕ)) (d e : DummyDialerListener)
    → take_out i d.dialling ≡ o
    → take_out j d.accepting ≡ p
    → meet i j o p d ≡ some e
    → IsSound d
    → IsSound e
meet-IsSound i j (some is) (some js) d e f g h v = of_some _ e h (record {
  once = λ k.
      omega
        (arith, v.once k, count-take_out k i d.dialling is f, count-take_out k j d.accepting js g);
  paired = λ k. omega (arith, v.paired k);
  own = λ k. omega (arith, v.own k);
  as_once = v.as_once;
  calm = v.calm;
})
meet-IsSound i j none p d e f g h v = cc
meet-IsSound i j (some is) none d e f g h v = cc

dial_fails-IsSound :
    (i : ℕ) (o : Option (List ℕ)) (d e : DummyDialerListener)
    → take_out i d.dialling ≡ o
    → dial_fails i o d ≡ some e
    → IsSound d
    → IsSound e
dial_fails-IsSound i none d e f h v = cc
dial_fails-IsSound i (some is) d e f h v = of_some _ e h (record {
  once = λ k. omega (arith, v.once k, count-take_out k i d.dialling is f);
  paired = λ k. omega (arith, v.paired k);
  own = λ k. omega (arith, v.own k);
  as_once = v.as_once;
  calm = v.calm;
})

accept_fails-IsSound :
    (j : ℕ) (o : Option (List ℕ)) (d e : DummyDialerListener)
    → take_out j d.accepting ≡ o
    → accept_fails j o d ≡ some e
    → IsSound d
    → IsSound e
accept_fails-IsSound j none d e f h v = cc
accept_fails-IsSound j (some js) d e f h v = of_some _ e h (record {
  once = λ k. omega (arith, v.once k, count-take_out k j d.accepting js f);
  paired = λ k. omega (arith, v.paired k);
  own = λ k. omega (arith, v.own k);
  as_once = v.as_once;
  calm = v.calm;
})

pub if_some :
    (b : Bool) (o : Option DummyDialerListener) (e : DummyDialerListener)
    → (if b then o else none) ≡ some e
    → (b ≡ true) × (o ≡ some e)
if_some true o e h = (refl, h)
if_some false o e h = cc

step-IsSound : (s : Step) (d e : DummyDialerListener) → step s d ≡ some e → IsSound d → IsSound e
unfolding step
step-IsSound dials d e h v = of_some _ e h (dial-IsSound d v)
step-IsSound accepts d e h v = of_some _ e h (accept-IsSound d v)
step-IsSound closes d e h v = of_some _ e h (close-IsSound d v)
step-IsSound (meets i j) d e h v = meet-IsSound i j _ _ d e refl refl h v
step-IsSound (refuses_dial i) d e h v =
    dial_fails-IsSound i _ d e refl (if_some d.is_closed _ e h).1 v
step-IsSound (refuses_accept j) d e h v =
    accept_fails-IsSound j _ d e refl (if_some d.is_closed _ e h).1 v

pub of_and_then :
    (o : Option DummyDialerListener) (f : DummyDialerListener → Option DummyDialerListener)
    (e : DummyDialerListener)
    → and_then o f ≡ some e
    → (d : DummyDialerListener) × (o ≡ some d) × (f d ≡ some e)
of_and_then none f e h = cc
of_and_then (some d) f e h = (d, refl, h)

run-IsSound :
    (ss : List Step) (d e : DummyDialerListener) → run ss d ≡ some e → IsSound d → IsSound e
unfolding run
run-IsSound [] d e h v = of_some d e h v
run-IsSound (s ∷ ss) d e h v =
    let (c, f, g) = of_and_then (step s d) (run ss) e h in
    run-IsSound ss c e g (step-IsSound s d c f v)

new-IsSound : IsSound new_dummy_dialer_listener
unfolding new_dummy_dialer_listener
new-IsSound = record {
  once = λ k. ground arith;
  paired = λ k. refl;
  own = λ k. omega arith;
  as_once = refl;
  calm = refl;
}

-- In any order of calls, of `Close` as well, nothing panics, a call returns at most once, and of each
-- pipe the far end is accepted exactly as often as the near end is dialled, which is at most once.
pub run-pairs :
    (ss : List Step) (d : DummyDialerListener) (k : ℕ)
    → run ss new_dummy_dialer_listener ≡ some d
    → (d.panicked ≡ false)
      × (calls k d.returned ≤ 1)
      × (nears k d.returned ≡ fars k d.returned)
      × (nears k d.returned ≤ 1)
run-pairs ss d k h =
    let v = run-IsSound ss new_dummy_dialer_listener d h new-IsSound in
    let n = at_most_one k d.next in
    (v.calm, omega (arith, v.once k, n), v.paired k, omega (arith, v.own k, v.once k, n))
  where
    at_most_one : (k n : ℕ) → one_if (ltb k n) ≤ 1
    at_most_one k n = ground arith
