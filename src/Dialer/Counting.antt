-- ===== src/Dialer/Counting.antt =====
-- How often a call is among those that wait and those that have returned.
use mos_tls_tunnel.Prelude.{
  ℕ, ◌+◌, ◌≤◌, ◌≡◌, ap, refl, Bool, false, Bool-cases, inl, inr, Option, none, some, List, [], ◌∷◌,
  arith, ◌==◌, ==_iff, if◌then◌else◌,
}
use mos_tls_tunnel.Dialer.{near, far, Outcome, conn, err_closed_pipe, take_out, behind}

abbrev pub one_if : Bool → ℕ
one_if b = if b then 1 else 0

abbrev pub count : ℕ → List ℕ → ℕ
count k [] = 0
count k (i ∷ is) = one_if (i == k) + count k is

abbrev pub calls : ℕ → List (ℕ × Outcome) → ℕ
calls k [] = 0
calls k (r ∷ rs) = one_if (r.0 == k) + calls k rs

abbrev pub is_near : ℕ → Outcome → ℕ
is_near k (conn (near i)) = one_if (i == k)
is_near k (conn (far i)) = 0
is_near k err_closed_pipe = 0

abbrev pub is_far : ℕ → Outcome → ℕ
is_far k (conn (near i)) = 0
is_far k (conn (far i)) = one_if (i == k)
is_far k err_closed_pipe = 0

-- How often an end of the pipe was returned.
abbrev pub nears : ℕ → List (ℕ × Outcome) → ℕ
nears k [] = 0
nears k (r ∷ rs) = is_near k (r.1) + nears k rs

abbrev pub fars : ℕ → List (ℕ × Outcome) → ℕ
fars k [] = 0
fars k (r ∷ rs) = is_far k (r.1) + fars k rs

pub of_behind :
    (j : ℕ) (o : Option (List ℕ)) (js : List ℕ)
    → behind j o ≡ some js
    → (ks : List ℕ) × (o ≡ some ks) × (js ≡ j ∷ ks)
of_behind j none js h = cc
of_behind j (some ks) js h = (ks, refl, ground arith)

pub count-take_out :
    (k i : ℕ) (is js : List ℕ) → take_out i is ≡ some js → count k is ≡ one_if (i == k) + count k js
count-take_out k i [] js h = cc
count-take_out k i (j ∷ is) js h = elim (Bool-cases (i == j)) [
  | inl same ↦
      let e : i ≡ j = (==_iff i j).0 same in
      let g : some is ≡ some js = rw same at h in
      let f : is ≡ js = cc in omega (arith, ap (λ (n : ℕ). one_if (n == k)) e, ap (count k) f)
  | inr different ↦
      let (ks, f, g) = of_behind j (take_out i is) js (rw different at h) in
      omega (arith, count-take_out k i is ks f, ap (count k) g)
]

waits_behind : (i j n : ℕ) → (i == j) ≡ false → 1 ≤ one_if (j == i) + n → 1 ≤ n
waits_behind i j n d h = ground arith

-- What waits can be taken out.
pub take_out-count :
    (i : ℕ) (is : List ℕ) → 1 ≤ count i is → (js : List ℕ) × (take_out i is ≡ some js)
take_out-count i [] h = absurd (omega arith)
take_out-count i (j ∷ is) h = elim (Bool-cases (i == j)) [
  | inl same ↦ (is, rw same refl)
  | inr different ↦
      let (js, f) = take_out-count i is (waits_behind i j (count i is) different h) in
      (j ∷ js, rw (different, f) refl)
]
