-- ===== src/Websocket/Methods.antt =====
-- The methods by which `webSocketConnWrapper` of internal/core/websocket.go is a `net.Conn`: what each
-- of them calls on the connection of gorilla/websocket.
use mos_tls_tunnel.Prelude.{ℕ, Option, List, [], ◌∷◌, Bytes}
use mos_tls_tunnel.Tunnel.Worker.{Deadline}
use mos_tls_tunnel.Websocket.Closing.{
  WsCall, read_messages, write_binary, set_read_deadline_to, set_write_deadline_to,
  set_underlying_deadline_to, Closer, wrap, close,
}

-- `Read` and `Write` themselves are in `Websocket`.
unfoldable pub read_calls : List WsCall
read_calls = read_messages ∷ []

unfoldable pub write_calls : Bytes → List WsCall
write_calls b = write_binary b ∷ []

-- Both deadlines, below gorilla/websocket.
unfoldable pub set_deadline : Deadline → List WsCall
set_deadline t = set_underlying_deadline_to t ∷ []

unfoldable pub set_read_deadline : Deadline → List WsCall
set_read_deadline t = set_read_deadline_to t ∷ []

unfoldable pub set_write_deadline : Deadline → List WsCall
set_write_deadline t = set_write_deadline_to t ∷ []

-- The calls of a tunnel on one of its connections.
pub data NetCall : Type 0 where
  read_call close_call : NetCall
  write_call : Bytes → NetCall
  read_deadline_call write_deadline_call deadline_call : Deadline → NetCall

unfoldable pub method : NetCall → Closer → Closer × List WsCall
unfolding close read_calls write_calls set_deadline set_read_deadline set_write_deadline
method read_call c = (c, read_calls)
method close_call c = close c
method (write_call b) c = (c, write_calls b)
method (read_deadline_call t) c = (c, set_read_deadline t)
method (write_deadline_call t) c = (c, set_write_deadline t)
method (deadline_call t) c = (c, set_deadline t)

-- What gorilla/websocket has besides: the addresses of a connection, and its dialer.
pub record WsNet : Type 1 where
  pub Conn : Type 0
  pub Addr : Type 0
  pub local : Conn → Addr
  pub remote : Conn → Addr
  pub dial : Bytes → Option Conn × Option ℕ

module _ (N : WsNet) where
  -- A wrapper, over no connection where `Dial` gave none.
  pub record Dialled : Type 0 where
    pub below : Option N.Conn
    pub closer : Closer

  unfoldable pub local_addr : N.Conn → N.Addr
  local_addr c = N.local c

  unfoldable pub remote_addr : N.Conn → N.Addr
  remote_addr c = N.remote c

  -- The wrapper is returned with the error too.
  unfoldable pub dial_websocket_conn : Bytes → Dialled × Option ℕ
  dial_websocket_conn url = let r = N.dial url in (record { below = r.0; closer = wrap }, r.1)
