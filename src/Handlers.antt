-- ===== src/Handlers.antt =====
-- Which connections the handlers of internal/core open, join and close. A handler is the list of
-- the things that it does; what the network answers is an argument.
pub mod Tunnelled
pub mod Leaks
pub mod Lasting
pub mod Interleaved
pub mod Streamed
use mos_tls_tunnel.Prelude.{
  ℕ, ◌≡◌, refl, ap, ◌∙◌, Bool, true, false, not, ◌||◌, ◌&&◌, Bool-cases, inl, inr, List, [], ◌∷◌,
  ◌++◌, arith, Bytes, ℤ, ◌==◌, if◌then◌else◌, ◌≢◌,
}

-- The connection that was accepted, one that was dialled, and a stream of a session.
pub data ConnId : Type 0 where
  left right : ConnId
  stream : ℕ → ConnId
  dialled_for : ℕ → ConnId

pub data Warning : Type 0 where
  dial_failed tunnel_failed handshake_failed upgrade_failed accept_failed too_many_streams : Warning
  invalid_path : Bytes → Warning

pub data Action : Type 0 where
  opened : ConnId → Bytes → Action
  joined : ConnId → ConnId → ℤ → Action
  closed : ConnId → Action
  warned : Warning → Action
  panics : Action

abbrev pub same_conn : ConnId → ConnId → Bool
same_conn left left = true
same_conn right right = true
same_conn (stream a) (stream b) = a == b
same_conn (dialled_for a) (dialled_for b) = a == b
same_conn _ _ = false

-- `openTunnel` closes both of its connections (`Tunnel.Safety`).
abbrev pub action_closes : ConnId → Action → Bool
action_closes c (joined a b timeout) = same_conn c a || same_conn c b
action_closes c (closed a) = same_conn c a
action_closes c (opened a dst) = false
action_closes c (warned w) = false
action_closes c panics = false

abbrev pub action_opens : ConnId → Action → Bool
action_opens c (opened a dst) = same_conn c a
action_opens c (joined a b timeout) = false
action_opens c (closed a) = false
action_opens c (warned w) = false
action_opens c panics = false

unfoldable pub closes : ConnId → List Action → Bool
closes c [] = false
closes c (a ∷ rest) = action_closes c a || closes c rest

unfoldable pub opens : ConnId → List Action → Bool
opens c [] = false
opens c (a ∷ rest) = action_opens c a || opens c rest

pub closes-append :
    (c : ConnId) (xs ys : List Action) → closes c (xs ++ ys) ≡ (closes c xs || closes c ys)
unfolding closes
closes-append c [] ys = refl
closes-append c (x ∷ xs) ys = ground (arith, closes-append c xs ys)

pub opens-append :
    (c : ConnId) (xs ys : List Action) → opens c (xs ++ ys) ≡ (opens c xs || opens c ys)
unfolding opens
opens-append c [] ys = refl
opens-append c (x ∷ xs) ys = ground (arith, opens-append c xs ys)

-- What is opened is closed.
abbrev pub Balanced : ConnId → List Action → Type 0
Balanced c acts = opens c acts ≡ true → closes c acts ≡ true

pub Balanced-append :
    (c : ConnId) (xs ys : List Action) → Balanced c xs → Balanced c ys → Balanced c (xs ++ ys)
Balanced-append c xs ys hx hy h = ground (arith, opens-append c xs ys, closes-append c xs ys)

pub warned-Balanced : (c : ConnId) (w : Warning) → Balanced c (warned w ∷ [])
unfolding closes opens
warned-Balanced c w h = cc

pub closed-Balanced : (c k : ConnId) → Balanced c (closed k ∷ [])
unfolding closes opens
closed-Balanced c k h = cc

-- What a handler does after the opening of one connection, and its deferred `Close`, which runs once
-- the handler has ended.
unfoldable pub deferred : ConnId → Bool → List Action → List Action
deferred k ended acts = opened k [] ∷ (acts ++ (if ended then closed k ∷ [] else []))

-- What is opened and not closed.
abbrev pub left_open : ConnId → List Action → Bool
left_open c acts = opens c acts && not (closes c acts)

pub Balanced-left_open :
    (c : ConnId) (acts : List Action) → Balanced c acts → left_open c acts ≡ false
Balanced-left_open c acts h = elim (Bool-cases (opens c acts)) [
  | inl e ↦ rw (e, h e) refl
  | inr e ↦ rw e refl
]

pub deferred-left_open :
    (k : ConnId) (ended : Bool) (acts : List Action)
    → same_conn k k ≡ true
    → (ended ≡ false → closes k acts ≡ false)
    → left_open k (deferred k ended acts) ≡ not ended
unfolding closes opens deferred
deferred-left_open k true acts h n = ground (arith, closes-append k acts (closed k ∷ []))
deferred-left_open k false acts h n = ground (arith, closes-append k acts [], n refl)

pub deferred-Balanced :
    (c k : ConnId) (ended : Bool) (acts : List Action)
    → same_conn c k ≡ false
    → Balanced c acts
    → Balanced c (deferred k ended acts)
unfolding closes opens deferred
deferred-Balanced c k true acts h b o =
    ground (arith, opens-append c acts (closed k ∷ []), closes-append c acts (closed k ∷ []))
deferred-Balanced c k false acts h b o =
    ground (arith, opens-append c acts [], closes-append c acts [])

same_conn-ne : (a b : ConnId) → a ≢ b → same_conn a b ≡ false
same_conn-ne left left n = absurd (n refl)
same_conn-ne right right n = absurd (n refl)
same_conn-ne (stream a) (stream b) n = ground arith
same_conn-ne (dialled_for a) (dialled_for b) n = ground arith
same_conn-ne left right n = refl
same_conn-ne left (stream b) n = refl
same_conn-ne left (dialled_for b) n = refl
same_conn-ne right left n = refl
same_conn-ne right (stream b) n = refl
same_conn-ne right (dialled_for b) n = refl
same_conn-ne (stream a) left n = refl
same_conn-ne (stream a) right n = refl
same_conn-ne (stream a) (dialled_for b) n = refl
same_conn-ne (dialled_for a) left n = refl
same_conn-ne (dialled_for a) right n = refl
same_conn-ne (dialled_for a) (stream b) n = refl

pub opened-Balanced :
    (c k : ConnId) (acts : List Action) → c ≢ k → Balanced c acts → Balanced c (opened k [] ∷ acts)
unfolding opens closes
opened-Balanced c k acts n b h = b (ground (arith, same_conn-ne c k n))
