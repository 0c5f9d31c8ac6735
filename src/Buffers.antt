-- ===== src/Buffers.antt =====
-- internal/core/common.go: `ioCopybuffPool`, `acquireIOBuf` and `releaseIOBuf`. Buffers are named by
-- numbers and live in a heap that all the goroutines of the process share. `sync.Pool` is a
-- parameter.
pub mod Thread
pub mod Process
pub mod Ownership
pub mod Exclusive
pub mod Filling
pub mod Simulation
pub mod Isolation
pub mod Refinement
use mos_tls_tunnel.Prelude.{
  ℕ, zero, suc, ◌+◌, ◌≤◌, ◌≡◌, Option, none, some, [], ◌∷◌, Bytes, if◌then◌else◌, ◌==◌,
}
use mos_tls_tunnel.Config.{default_copy_io_buffer_size}

abbrev pub update {ℓ} : {A : Type ℓ} → ℕ → A → (ℕ → A) → ℕ → A
update k v f j = if k == j then v else f j

-- `Get`, which finds a buffer or none, and `Put`. What decides which buffer is found, and when the
-- pool drops one, is a part of its state.
pub record SyncPool : Type 1 where
  pub State : Type 0
  pub empty : State
  pub get : State → State × Option ℕ
  pub put : ℕ → State → State

abbrev pub one_if : ℕ → ℕ → ℕ
one_if b a = if b == a then 1 else 0

-- What a `Get` finds is taken out of the pool.
abbrev pub Gets : {S : Type 0} → (S → ℕ → ℕ) → S → S × Option ℕ → Type 0
Gets count s (s', none) = (a : ℕ) → count s' a ≤ count s a
Gets count s (s', some b) = (a : ℕ) → count s' a + one_if b a ≤ count s a

-- What is documented of a `sync.Pool`: it holds what was put into it, as often at most as it was
-- put there and not taken out; it may drop a buffer at any time, and it starts empty.
pub record IsSyncPool (P : SyncPool) : Type 0 where
  pub count : P.State → ℕ → ℕ
  pub count-empty : (a : ℕ) → count P.empty a ≡ 0
  pub get_lem : (s : P.State) → Gets count s (P.get s)
  pub put_lem : (b : ℕ) (s : P.State) (a : ℕ) → count (P.put b s) a ≤ count s a + one_if b a

unfoldable pub zeros : ℕ → Bytes
zeros zero = []
zeros (suc n) = 0 ∷ zeros n

module _ (P : SyncPool) where
  -- The buffers below `next` have been made.
  pub record Heap : Type 0 where
    pub pool : P.State
    pub next : ℕ
    pub content : ℕ → Bytes

  -- `ioCopybuffPool` at the start of the process.
  unfoldable pub io_copybuff_pool : Heap
  io_copybuff_pool = record { pool = P.empty; next = 0; content = λ a. [] }

  -- `New`, `make([]byte, defaultCopyIOBufferSize)`
  unfoldable pub new_buf : Heap → ℕ × Heap
  new_buf h = (
    h.next,
    record h {
      next = suc h.next;
      content = update h.next (zeros default_copy_io_buffer_size) h.content;
    },
  )

  unfoldable pub got_buf : Heap → P.State × Option ℕ → ℕ × Heap
  unfolding new_buf
  got_buf h (s, none) = new_buf (record h { pool = s })
  got_buf h (s, some b) = (b, record h { pool = s })

  unfoldable pub acquire_io_buf : Heap → ℕ × Heap
  unfolding got_buf
  acquire_io_buf h = got_buf h (P.get h.pool)

  unfoldable pub release_io_buf : ℕ → Heap → Heap
  release_io_buf b h = record h { pool = P.put b h.pool }
