-- ===== src/Prelude/Text.antt =====
-- Go strings as lists of bytes, with decided equality.
use Prim.Native.Nat.{ℕ}
use Prim.Native.Char.{code}
use Prim.Native.String.{String}
use mathlib.Core.Path.{refl}
use mathlib.Core.Logic.{dite, ite}
use mathlib.Core.Bool.{Bool, true, false}
use mathlib.Core.List.{List, [], ◌∷◌}
use native.Mathlib.Decide.{ℕ_discrete}

abbrev pub Bytes : Type 0
Bytes = List ℕ

-- The code points of a literal; these are its bytes when the text is ASCII.
abbrev pub codes : String → Bytes
codes String.[] = []
codes (String.◌∷◌ c s) = code c ∷ codes s

unfoldable pub bytes_dec : Discrete Bytes
unfolding ℕ_discrete
bytes_dec [] [] = yes refl
bytes_dec [] (y ∷ ys) = no (λ e. cc)
bytes_dec (x ∷ xs) [] = no (λ e. cc)
bytes_dec (x ∷ xs) (y ∷ ys) =
    dite (ℕ_discrete x y) (λ p. dite (bytes_dec xs ys) (λ q. yes (cc)) (λ q. no (λ e. q (cc))))
      (λ p. no (λ e. p (cc)))

-- `a == b` on strings.
abbrev pub same : Bytes → Bytes → Bool
same a b = ite (bytes_dec a b) true false
