-- ===== src/Certificate/Names.antt =====
-- What `randStr` and `randServerName` produce.
use mos_tls_tunnel.Prelude.{
  ℕ, zero, suc, ◌+◌, ◌≤◌, ◌<◌, ◌≡◌, refl, ap, some, [], ◌∷◌, ◌++◌, arith, Bytes, length, All,
}
use mos_tls_tunnel.Certificate.{Rand, set, get_elem?, rand_loop, rand_str, rand_server_name}

abbrev pub IsLower : ℕ → Type 0
IsLower b = (97 ≤ b) × (b ≤ 122)

get_elem?-All :
    {P : ℕ → Type 0} (xs : Bytes) (i : ℕ)
    → All P xs
    → i < length xs
    → (b : ℕ) × (get_elem? xs i ≡ some b) × P b
get_elem?-All [] i h n = absurd (omega arith)
get_elem?-All (x ∷ xs) zero (p, h) n = (x, refl, p)
get_elem?-All (x ∷ xs) (suc i) (p, h) n = get_elem?-All xs i h (omega arith)

set-AllLower : All IsLower set
set-AllLower = ground arith

-- A string of the given length, each of whose bytes is a lower-case letter.
pub record IsName (n : ℕ) (s : Bytes) : Type 0 where
  pub long : length s ≡ n
  pub lower : All IsLower s

-- Two labels of lower-case letters with a dot between them, of 3 to 7 and of 1 to 3 letters.
pub record IsRandomName (s : Bytes) : Type 0 where
  pub first_label : Bytes
  pub second_label : Bytes
  pub joined : s ≡ first_label ++ (b'.' ∷ second_label)
  pub first_long : (3 ≤ length first_label) × (length first_label ≤ 7)
  pub second_long : (1 ≤ length second_label) × (length second_label ≤ 3)
  pub first_lower : All IsLower first_label
  pub second_lower : All IsLower second_label

-- What `Intn(n)` documents of its result.
abbrev pub IsBelow {ℓ} : {A : Type ℓ} → ℕ → A × ℕ → Type 0
IsBelow n (r, i) = i < n

module _ (R : Rand) (law : (r : R.Source) (n : ℕ) → 0 < n → IsBelow n (R.intn r n)) where
  open R use {Source, new_source, intn}

  rand_loop-IsName : (n : ℕ) (r : Source) → (s : Bytes) × (rand_loop R n r ≡ some s) × IsName n s
  unfolding rand_loop
  rand_loop-IsName zero r = ([], refl, record { long = refl; lower = tt })
  rand_loop-IsName (suc n) r =
      let (r', i) = intn r (length set) in
      let (s, e, is_name) = rand_loop-IsName n r' in
      let (b, f, lower) =
        get_elem?-All {P = IsLower} set i set-AllLower (law r (length set) (omega arith)) in
      (
        b ∷ s,
        rw f (rw e refl),
        record { long = ap suc is_name.long; lower = (lower, is_name.lower) },
      )

  -- `randStr` never indexes out of range, and gives that many lower-case letters.
  pub rand_str-IsName : (now n : ℕ) → (s : Bytes) × (rand_str R now n ≡ some s) × IsName n s
  unfolding rand_str
  rand_str-IsName now n = rand_loop-IsName n (new_source now)

  -- If `Intn` gives a number below its argument, `randServerName` never panics, and what it gives
  -- is a random name: two labels of lower-case letters with a dot between them, of 3 to 7 and of 1
  -- to 3 letters.
  pub rand_server_name-IsRandomName :
      (global : Source) (first second : ℕ)
      → (s : Bytes) × (rand_server_name R global first second ≡ some s) × IsRandomName s
  unfolding rand_server_name
  rand_server_name-IsRandomName global first second =
      let (x, e, is_first) = rand_str-IsName first ((intn global 5).1 + 3) in
      let (y, f, is_second) = rand_str-IsName second ((intn (intn global 5).0 3).1 + 1) in
      let n = law global 5 (omega arith) in
      let m = law (intn global 5).0 3 (omega arith) in
      (
        x ++ (b'.' ∷ y),
        rw e (rw f refl),
        record {
          first_label = x;
          second_label = y;
          joined = refl;
          first_long = (omega (arith, is_first.long), omega (arith, is_first.long, n));
          second_long = (omega (arith, is_second.long), omega (arith, is_second.long, m));
          first_lower = is_first.lower;
          second_lower = is_second.lower;
        },
      )
