-- ===== src/GoStd/Strings.antt =====
-- `strings.Split` at a separator of one byte, `strings.HasPrefix`, and the searches for a byte.
use mos_tls_tunnel.Prelude.{
  ℕ, ◌≡◌, ◌≢◌, refl, ap, ◌∙◌, Bool, true, false, ◌&&◌, ◌||◌, Option, none, some, List, [], ◌∷◌,
  ◌++◌, arith, Bytes, ◌==◌, if◌then◌else◌, All,
}

abbrev pub Lacks : ℕ → Bytes → Type 0
Lacks b = All (λ c. c ≢ b)

-- A byte in front of the first part.
abbrev pub extend_head : ℕ → List Bytes → List Bytes
extend_head c [] = []
extend_head c (p ∷ ps) = (c ∷ p) ∷ ps

unfoldable pub split : ℕ → Bytes → List Bytes
split sep [] = [] ∷ []
split sep (c ∷ s) = let rest = split sep s in if c == sep then [] ∷ rest else extend_head c rest

-- The parts with the separator between them.
unfoldable pub join : ℕ → List Bytes → Bytes
join sep [] = []
join sep (p ∷ []) = p
join sep (p ∷ q ∷ ps) = p ++ (sep ∷ join sep (q ∷ ps))

unfoldable pub has_prefix : Bytes → Bytes → Bool
has_prefix s [] = true
has_prefix [] (p ∷ ps) = false
has_prefix (c ∷ s) (p ∷ ps) = (c == p) && has_prefix s ps

-- `IndexByteString(s, b) >= 0`
unfoldable pub contains_byte : ℕ → Bytes → Bool
contains_byte b [] = false
contains_byte b (c ∷ s) = if c == b then true else contains_byte b s

abbrev pub in_front : ℕ → Option (Bytes × Bytes) → Option (Bytes × Bytes)
in_front c none = none
in_front c (some (x, y)) = some (c ∷ x, y)

-- The text before the first occurrence of a byte and the text behind it.
unfoldable pub cut : ℕ → Bytes → Option (Bytes × Bytes)
cut b [] = none
cut b (c ∷ s) = let rest = cut b s in if c == b then some ([], s) else in_front c rest

abbrev pub at_or_later : ℕ → ℕ → Bytes → Option (Bytes × Bytes) → Option (Bytes × Bytes)
at_or_later b c s (some (x, y)) = some (c ∷ x, y)
at_or_later b c s none = if c == b then some ([], s) else none

-- The text before the last occurrence and the text behind it.
unfoldable pub cut_last : ℕ → Bytes → Option (Bytes × Bytes)
cut_last b [] = none
cut_last b (c ∷ s) = at_or_later b c s (cut_last b s)

pub contains_byte-append :
    (b : ℕ) (x y : Bytes) → contains_byte b (x ++ y) ≡ (contains_byte b x || contains_byte b y)
unfolding contains_byte
contains_byte-append b [] y = refl
contains_byte-append b (c ∷ x) y = ground (arith, contains_byte-append b x y)

pub cut_append :
    (b : ℕ) (x y : Bytes) → contains_byte b x ≡ false → cut b (x ++ (b ∷ y)) ≡ some (x, y)
unfolding contains_byte cut
cut_append b [] y h = ground arith
cut_append b (c ∷ x) y h = ground (arith, cut_append b x y)

cut_last-none : (b : ℕ) (y : Bytes) → contains_byte b y ≡ false → cut_last b y ≡ none
unfolding contains_byte cut_last
cut_last-none b [] h = refl
cut_last-none b (c ∷ y) h = ground (arith, cut_last-none b y)

pub cut_last_append :
    (b : ℕ) (x y : Bytes) → contains_byte b y ≡ false → cut_last b (x ++ (b ∷ y)) ≡ some (x, y)
unfolding cut_last
cut_last_append b [] y h = ground (arith, cut_last-none b y h)
cut_last_append b (c ∷ x) y h = ground (arith, cut_last_append b x y h)

pub split_part : (sep : ℕ) (p : Bytes) → Lacks sep p → split sep p ≡ p ∷ []
unfolding split
split_part sep [] h = refl
split_part sep (c ∷ p) (hc, hp) = ground (arith, split_part sep p hp)

pub split_parts :
    (sep : ℕ) (p rest : Bytes) → Lacks sep p → split sep (p ++ (sep ∷ rest)) ≡ p ∷ split sep rest
unfolding split
split_parts sep [] rest h = ground arith
split_parts sep (c ∷ p) rest (hc, hp) = ground (arith, split_parts sep p rest hp)

-- Splitting a join gives the parts back, if there is one and none holds the separator.
pub split-join :
    (sep : ℕ) (ps : List Bytes) → ps ≢ [] → All (Lacks sep) ps → split sep (join sep ps) ≡ ps
unfolding join
split-join sep [] h _ = absurd (h refl)
split-join sep (p ∷ []) h (hp, _) = split_part sep p hp
split-join sep (p ∷ q ∷ ps) h (hp, hps) =
    split_parts sep p (join sep (q ∷ ps)) hp ∙ ap (◌∷◌ p) (split-join sep (q ∷ ps) (cc) hps)
