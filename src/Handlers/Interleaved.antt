-- ===== src/Handlers/Interleaved.antt =====
-- The goroutines of the streams of one connection, in every interleaving of what they do.
use mos_tls_tunnel.Prelude.{
  ℕ, ◌≡◌, ◌≢◌, ◌⊎◌, refl, ap, ◌∙◌, Bool, true, false, ◌||◌, List, [], ◌∷◌, ◌++◌, arith,
  if◌then◌else◌, All,
}
use mos_tls_tunnel.Handlers.{ConnId, stream, dialled_for, Action, action_opens, action_closes}
use mos_tls_tunnel.Handlers.Tunnelled.{Handler, of_accept}
use mos_tls_tunnel.Streams.Accept.{handle}

-- The actions of two goroutines in some order that keeps that of each.
pub data Shuffle : List Action → List Action → List Action → Type 0 where
  none : Shuffle [] [] []
  first : {a : Action} {xs ys zs : List Action} → Shuffle xs ys zs → Shuffle (a ∷ xs) ys (a ∷ zs)
  second : {a : Action} {xs ys zs : List Action} → Shuffle xs ys zs → Shuffle xs (a ∷ ys) (a ∷ zs)

-- The same of any number of goroutines.
pub data Interleaves : List (List Action) → List Action → Type 0 where
  nobody : Interleaves [] []
  joins :
      {xs ys zs : List Action} {rest : List (List Action)}
      → Interleaves rest ys
      → Shuffle xs ys zs
      → Interleaves (xs ∷ rest) zs

-- Whether a connection is open after the actions.
abbrev pub open_after : ConnId → Bool → List Action → Bool
open_after c b [] = b
open_after c b (a ∷ rest) =
    open_after c (if action_opens c a then true else if action_closes c a then false else b) rest

-- The actions do not concern the connection.
abbrev pub Ignores : ConnId → List Action → Type 0
Ignores c = All (λ (a : Action). (action_opens c a || action_closes c a) ≡ false)

ignored :
    (c : ConnId) (b : Bool) (a : Action)
    → (action_opens c a || action_closes c a) ≡ false
    → (if action_opens c a then true else if action_closes c a then false else b) ≡ b
ignored c b a n = ground arith

open_after-Shuffle :
    {xs ys zs : List Action} (c : ConnId) (b : Bool)
    → Shuffle xs ys zs
    → Ignores c xs
    → open_after c b zs ≡ open_after c b ys
open_after-Shuffle c b none i = refl
open_after-Shuffle c b (first {a} {xs} {ys} {zs} s) (n, i) =
    ap (λ x. open_after c x zs) (ignored c b a n) ∙ open_after-Shuffle c b s i
open_after-Shuffle c b (second s) i = open_after-Shuffle c _ s i

Shuffle-swap : {xs ys zs : List Action} → Shuffle xs ys zs → Shuffle ys xs zs
Shuffle-swap none = none
Shuffle-swap (first s) = second (Shuffle-swap s)
Shuffle-swap (second s) = first (Shuffle-swap s)

shuffle-Ignores :
    {xs ys zs : List Action} (c : ConnId)
    → Shuffle xs ys zs
    → Ignores c xs
    → Ignores c ys
    → Ignores c zs
shuffle-Ignores c none i j = tt
shuffle-Ignores c (first s) (n, i) j = (n, shuffle-Ignores c s i j)
shuffle-Ignores c (second s) i (n, j) = (n, shuffle-Ignores c s i j)

-- The goroutines of these streams.
abbrev pub goroutines : Handler → List ℕ → List (List Action)
goroutines f [] = []
goroutines f (t ∷ ts) = of_accept f (handle t) ∷ goroutines f ts

-- A connection that the goroutine of the stream opens.
abbrev pub IsOf : ℕ → ConnId → Type 0
IsOf t c = (c ≡ stream t) ⊎ (c ≡ dialled_for t)

-- A handler that touches its own connections only.
abbrev pub IsApart : Handler → Type 0
IsApart f = (t u : ℕ) (c : ConnId) → IsOf t c → u ≢ t → Ignores c (of_accept f (handle u))

module _ (f : Handler) (apart : IsApart f) (t : ℕ) (c : ConnId) (own : IsOf t c) where
  others-Ignores :
      (ts : List ℕ) {out : List Action}
      → All (λ (u : ℕ). u ≢ t) ts
      → Interleaves (goroutines f ts) out
      → Ignores c out
  others-Ignores [] d nobody = tt
  others-Ignores (u ∷ ts) (n, d) (joins i s) =
      shuffle-Ignores c s (apart t u c own n) (others-Ignores ts d i)

  -- In every interleaving of the goroutines of a connection's streams, one of which is `t`, a
  -- connection of that stream ends as its own goroutine leaves it.
  pub open_after-Interleaves :
      (before after : List ℕ) (b : Bool) {out : List Action}
      → All (λ (u : ℕ). u ≢ t) before
      → All (λ (u : ℕ). u ≢ t) after
      → Interleaves (goroutines f (before ++ (t ∷ after))) out
      → open_after c b out ≡ open_after c b (of_accept f (handle t))
  open_after-Interleaves [] after b d e (joins i s) =
      open_after-Shuffle c b (Shuffle-swap s) (others-Ignores after e i)
  open_after-Interleaves (u ∷ before) after b (n, d) e (joins i s) =
      open_after-Shuffle c b s (apart t u c own n) ∙ open_after-Interleaves before after b d e i
