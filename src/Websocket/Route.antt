-- ===== src/Websocket/Route.antt =====
-- From the connection of the local client to that of the destination, over WebSocket: the tunnel of
-- the client writes to a wrapper, the messages go over the network, and the tunnel of the
-- server reads from the wrapper at its end (internal/core/client.go, internal/core/server.go,
-- internal/core/common.go and internal/core/websocket.go). The other direction is the same.
use mos_tls_tunnel.Prelude.{ℕ, ◌+◌, ◌≡◌, Option, none, some, [], ◌∷◌, ◌++◌, Bytes, ℤ, length}
use mos_tls_tunnel.Config.{default_copy_io_buffer_size}
use mos_tls_tunnel.Tunnel.FirstErr.{IoError, eof, other}
use mos_tls_tunnel.Tunnel.Worker.{End, opposite, Pc, reading, writing, Answer}
use mos_tls_tunnel.Tunnel.System.{
  System, worker, open_tunnel, sys_step, IsLawful, Reach, start, next,
}
use mos_tls_tunnel.Websocket.{
  Ws, ReadError, end_of_file, failed, Wrapper, Read, done, out_of_fuel, read, write,
}
use mos_tls_tunnel.Websocket.Reading.{IsWs, stream}

abbrev pub read_error : ReadError → IoError
read_error end_of_file = eof
read_error (failed n) = other n

abbrev pub io_error : {E : Type 0} → (E → IoError) → Option E → Option IoError
io_error f none = none
io_error f (some e) = some (f e)

-- What a goroutine is answered by a `Read` and by a `Write` of its wrapper.
abbrev pub AnswersRead : Read → Answer → Type 0
AnswersRead (done bs e) i = (i.read ≡ bs) × (i.er ≡ io_error read_error e)
AnswersRead out_of_fuel i = ⊥

abbrev pub AnswersWrite : ℕ × Option ℕ → Answer → Type 0
AnswersWrite (n, e) i = (i.nw ≡ n) × (i.ew ≡ io_error other e)

abbrev pub IsReading : Pc → Type 0
IsReading reading = Unit {0}
IsReading _ = ⊥

abbrev pub IsWriting : Pc → Type 0
IsWriting (writing buf er) = Unit {0}
IsWriting _ = ⊥

-- The network: a message that is sent comes to the other end behind those before it.
pub record Network (W : Ws) (I : IsWs W) : Type 0 where
  pub arrive : Bytes → W.Conn → W.Conn
  pub messages-arrive :
      (b : Bytes) (c : W.Conn) → I.messages (arrive b c) ≡ I.messages c ++ (b ∷ [])

module _ (W : Ws) (I : IsWs W) (N : Network W I) where
  abbrev pub arrived : Bytes → Wrapper W → Wrapper W
  arrived b r = record r { ws = N.arrive b r.ws }

  -- A message whose write failed may have been sent or not.
  pub data Delivers (b : Bytes) (r : Wrapper W) : Option ℕ → Wrapper W → Type 0 where
    delivered : (e : Option ℕ) → Delivers b r e (arrived b r)
    lost : (e : ℕ) → Delivers b r (some e) r

  -- The tunnels of the client and of the server, and the wrappers between them.
  pub record Route : Type 0 where
    pub near : System
    pub far : System
    pub sender : Wrapper W
    pub receiver : Wrapper W

  abbrev pub read_link : Wrapper W → Wrapper W × Read
  read_link r = read W (length (I.messages r.ws) + 2) default_copy_io_buffer_size r

  -- The goroutine `e` of the near tunnel writes to the link, and `e'` of the far one reads from it.
  -- All other accesses of the two tunnels are answered in any way that `net.Conn` allows.
  pub data RouteReach (timeout timeout' : ℤ) (e e' : End) : Route → Type 0 where
    opened :
        (s r : Wrapper W)
        → stream W I r ≡ []
        → RouteReach timeout timeout' e e' (record {
          near = open_tunnel timeout;
          far = open_tunnel timeout';
          sender = s;
          receiver = r;
        })
    near_other :
        {ρ : Route} (i : Answer)
        → RouteReach timeout timeout' e e' ρ
        → IsLawful (opposite e) i ρ.near
        → RouteReach timeout timeout' e e' (record ρ { near = sys_step (opposite e) i ρ.near })
    near_moves :
        {ρ : Route} (i : Answer)
        → RouteReach timeout timeout' e e' ρ
        → IsLawful e i ρ.near
        → (IsWriting (worker e ρ.near).pc → ⊥)
        → RouteReach timeout timeout' e e' (record ρ { near = sys_step e i ρ.near })
    near_writes :
        {ρ : Route} (i : Answer) (buf : Bytes) (er : Option IoError) (r : Wrapper W)
        → RouteReach timeout timeout' e e' ρ
        → IsLawful e i ρ.near
        → (worker e ρ.near).pc ≡ writing buf er
        → AnswersWrite (write W buf ρ.sender).1 i
        → Delivers buf ρ.receiver (write W buf ρ.sender).1.1 r
        → RouteReach timeout timeout' e e' (record ρ {
          near = sys_step e i ρ.near;
          sender = (write W buf ρ.sender).0;
          receiver = r;
        })
    far_other :
        {ρ : Route} (i : Answer)
        → RouteReach timeout timeout' e e' ρ
        → IsLawful (opposite e') i ρ.far
        → RouteReach timeout timeout' e e' (record ρ { far = sys_step (opposite e') i ρ.far })
    far_moves :
        {ρ : Route} (i : Answer)
        → RouteReach timeout timeout' e e' ρ
        → IsLawful e' i ρ.far
        → (IsReading (worker e' ρ.far).pc → ⊥)
        → RouteReach timeout timeout' e e' (record ρ { far = sys_step e' i ρ.far })
    far_reads :
        {ρ : Route} (i : Answer)
        → RouteReach timeout timeout' e e' ρ
        → IsLawful e' i ρ.far
        → IsReading (worker e' ρ.far).pc
        → AnswersRead (read_link ρ.receiver).1 i
        → RouteReach timeout timeout' e e'
            (record ρ { far = sys_step e' i ρ.far; receiver = (read_link ρ.receiver).0 })

  pub near-Reach :
      {timeout timeout' : ℤ} {e e' : End} {ρ : Route}
      → RouteReach timeout timeout' e e' ρ
      → Reach timeout ρ.near
  near-Reach (opened s r h) = start
  near-Reach {e = e} (near_other i q l) = next (opposite e) i (near-Reach q) l
  near-Reach {e = e} (near_moves i q l n) = next e i (near-Reach q) l
  near-Reach {e = e} (near_writes i buf er r q l p a d) = next e i (near-Reach q) l
  near-Reach (far_other i q l) = near-Reach q
  near-Reach (far_moves i q l n) = near-Reach q
  near-Reach (far_reads i q l p a) = near-Reach q

  pub far-Reach :
      {timeout timeout' : ℤ} {e e' : End} {ρ : Route}
      → RouteReach timeout timeout' e e' ρ
      → Reach timeout' ρ.far
  far-Reach (opened s r h) = start
  far-Reach (near_other i q l) = far-Reach q
  far-Reach (near_moves i q l n) = far-Reach q
  far-Reach (near_writes i buf er r q l p a d) = far-Reach q
  far-Reach {e' = e'} (far_other i q l) = next (opposite e') i (far-Reach q) l
  far-Reach {e' = e'} (far_moves i q l n) = next e' i (far-Reach q) l
  far-Reach {e' = e'} (far_reads i q l p a) = next e' i (far-Reach q) l
