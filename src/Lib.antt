-- ===== src/Lib.antt =====
-- Verification library of mos-tls-tunnel, a TLS and WebSocket tunnel with a client, a server and a
-- server for many users.
--
-- The parts of the program and how they interact. The commands (cmd/mtt-client, cmd/mtt-server,
-- cmd/mtt-mu-server) read their flags, or, as plugins, their arguments from the environment
-- (internal/core/sip003.go), into a configuration (internal/core/config.go). From it
-- internal/core/client.go and internal/core/server.go build a client and a server, with the
-- options of their sockets (internal/core/tcp*.go). The client forwards each connection to the
-- server over TLS or over WebSocket (internal/core/websocket.go), or over a stream of a smux
-- session (internal/core/cmux.go, and the pool in internal/core/client.go). A server joins each
-- connection or stream to its destination by a tunnel (internal/core/common.go). The multi-user
-- server routes a path to the destination in a table (internal/core/multi_user_http_mux.go) that an
-- HTTP controller keeps (internal/core/multi_user_server.go).
--
-- The files:
--   Prelude   shared tests, lists, texts and results
--   GoMap     Go's maps from strings, as association lists
--   GoStd     what the program uses of the packages strings, net and flag, from their documentation
--   Config    internal/core/config.go
--   Sip003    internal/core/sip003.go: FormatSSPluginOptions (Options, Errors), GetSIP003Args (Args)
--   Commands  the main functions of cmd: up to the call of NewClient, NewServer or NewMUServer
--             (Client, Server, MuServer, Canonical, Plugin), what the options mean for the client
--             (Described), from the host of a plugin to the client or server (Starts,
--             ServerStarts), and goroutines, signals and exit status (Running,
--             Exit, MuRunning, MuExit)
--   Tunnel    internal/core/common.go: firstErr, copyBuffer and openOneWayTunnel (Worker),
--             openTunnel (System), its invariant (Invariant, Delivery, Preserved) and its
--             laws (Safety, Reporting, Termination, Liveness), its idle timeout (Deadlines,
--             Timeout), its two atomic.Values (AtomicValue), and two tunnels in a row (EndToEnd)
--   Buffers   internal/core/common.go: ioCopybuffPool, acquireIOBuf and releaseIOBuf, and the
--             goroutines of all tunnels over one heap of buffers (Thread, Process): who holds a
--             buffer (Ownership, Exclusive), what is in it (Filling, Isolation), and the
--             refinement to Tunnel (Simulation, Refinement)
--   Streams   internal/core/cmux.go (Session), getMuxStream (Pool) and many calls of it at once
--             (Shared), handleClientMuxConn of internal/core/common.go (Accept); Smux is the
--             library as a parameter
--   Upgrader  the subprotocols of internal/core/websocket.go and the upgrader of both servers
--   Tcp       internal/core/tcp*.go: getControlFunc, setSockOpt and sendFdToBypass (Bypass: its rules)
--   Websocket internal/core/websocket.go: Read (Reading) and Write, from one wrapper to another
--             (Messages), Close (Closing), the other methods (Methods), a wrapper below a tunnel
--             (Tunnelled, Handshake, Overlap), and the tunnels of client and server with two
--             wrappers between them (Route; Moves, Flows, EndToEnd)
--   Client    internal/core/client.go: NewClient (New), ForwardConn and the dials (Forward)
--   Handlers  what the handlers of connections open, join and close; handleClientConn of both
--             servers (Tunnelled, Leaks), how long a session is kept (Lasting), for the streams of a
--             connection at once (Interleaved, Streamed)
--   Listening what is listened on, with listenUnix of internal/core/common.go; Start and Close of
--             internal/core/client.go and internal/core/server.go (Lifecycle, Sound,
--             Closing)
--   Certificate  generateCertificate, randServerName and randStr of internal/core/server.go
--   Dialer    internal/core/dummy_conn.go
--   Server    internal/core/server.go: NewServer (New, SelfSigned), ActiveAndServe and ServeHTTP
--             (Serve), and the subprotocol by which client and server agree on smux (Negotiation)
--   MultiUser internal/core/multi_user_http_mux.go (Table, Routing, Isolation) and the controller
--             of internal/core/multi_user_server.go (Controller, Spec, History,
--             Replies), and NewMUServer and StartServer (Start)
--   Tests     concrete runs
--
-- How the code is modelled. A string is the list of its bytes, a duration an integer of
-- nanoseconds, a struct a record, and an error a value. A handler is the list of what it does to
-- connections, with what the network answers as an argument. Where goroutines share state, each
-- access to it is a step, and every interleaving is a sequence of steps: the two goroutines of a
-- tunnel (Tunnel.System, Tunnel.Liveness), calls of getMuxStream (Streams.Shared), Start and Close
-- (Listening.Lifecycle), main and its goroutines (Commands.Running, Commands.MuRunning), Dial and
-- Accept of the in-memory dialer (Dialer), the streams of a connection (Handlers.Interleaved),
-- and all the tunnels of a process over the pool of buffers (Buffers.Process).
-- sync.Pool, smux, gorilla/websocket, encoding/json, crypto/tls, crypto/x509, math/rand,
-- net.ParseIP, the number parsers of strconv and time, and the system calls are parameters;
-- what is relied on stands in records and hypotheses beside them. Counters of bytes are not
-- bounded: an int64 does not overflow in practice.
--
-- A panic is an action of a handler, a place of Start (`http.ServeMux.Handle` panics on an empty
-- path), and an event that ends the client or the server with the exit status 2.
--
-- Fuel. Only Websocket.read has fuel: a turn for each message to come and two more are enough.
-- Everything else is structural.
--
-- Not modelled: logging other than warnings of handlers, the hooks by which the tests replace the
-- dials, panics in mtt-mu-server while it runs, the tests, and the vendored libraries.
pub mod Prelude
pub mod GoMap
pub mod GoStd
pub mod Config
pub mod Sip003
pub mod Commands
pub mod Tunnel
pub mod Buffers
pub mod Streams
pub mod Upgrader
pub mod Tcp
pub mod Websocket
pub mod Client
pub mod Handlers
pub mod Listening
pub mod Certificate
pub mod Dialer
pub mod Server
pub mod MultiUser
pub mod Tests
