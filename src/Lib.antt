-- ===== src/Lib.antt =====
-- A model of vlgr, a tunnel that publishes local ports, and what is proved of it.
--
-- The server (internal/server) accepts clients on WebSocket connections. A client authenticates,
-- registers tunnels and then answers the requests that the server relays to it; all of this is
-- frames of internal/protocol on that one connection. Public HTTP requests reach a client by the
-- subdomain of their host, TLS connections by the name in their ClientHello, and raw TCP connections
-- by a port of their own. The client (internal/client) keeps the table of its forwards, asks the local
-- service for what the server sends it, and shows the exchanges in a local inspector. A stock SSH client
-- can ask for public ports too (internal/sshtun). Both programs update themselves
-- (internal/selfupdate).
--
-- Files:
--   Prelude            numbers, tests, lists, byte strings, association lists, `(value, error)` results
--   Protocol           internal/protocol/protocol.go: constants and messages. Wire has writeString and
--                      readString, Frames EncodeFrame and DecodeFrame, Http the requests and responses,
--                      Register and Auth the payloads of those frames, Upgrade the WebSocket tests
--   Server.PortAllocator   internal/server/tcp.go: NewPortAllocator, Allocate, Release
--   Server.Registry    internal/server/registry.go: Register, Unregister, Get, Snapshot
--   Server.Sni         internal/server/sni.go, and peekClientHello of internal/server/tlspass.go
--   Server.Subdomain   validSubdomain of handler.go and extractSubdomain of proxy.go
--   Server.Proxy       internal/server/proxy.go: copyValidHeaders and its checks; Serving has ServeHTTP
--                      up to the forwarding, and the responses that are written
--   Server.Passthrough   relayPublicConn of handler.go, pumpRequestBody of proxy.go, route of tlspass.go
--   Server.Upgraded      serveWebSocket of proxy.go, once the request was forwarded
--   Server.Admin       internal/server/admin.go: guard, tokenOK, handleStatus
--   Server.Protect     internal/server/protect.go: NewProtector, Allow, clientIP
--   Server.Handler     internal/server/handler.go: State has the ClientHandler and what it shares,
--                      Handshake handleAuth, Tunnels the registrations, Requests the frames of the
--                      requests in flight with startForward and awaitResponse, Cleanup cleanup, and
--                      Dispatch handleFrame and the loop of Run
--   SelfUpdate         internal/selfupdate/selfupdate.go: newer and numAt; Install has checkOnce with
--                      apply, download, verifyDownload and fetchSignature
--   Client             internal/client/tunnel.go: the forwards, AddPort, RemovePort and their answers.
--                      Streams has the frames of streams, the relays of raw connections and the reader
--                      of an upload, Serve handleHTTPReq and what follows it to the response, Session
--                      Connect and registerOne, Run the loop of Run, PublicURL and Close, Control the
--                      control socket with queryForwards of cmd/client/main.go
--   Client.Dashboard   internal/client/dashboard.go: the entries, the guard `local`, listing and replay
--   Sshtun             internal/sshtun/server.go: the forwards of an SSH connection; Pool puts the
--                      server's allocator behind the interface PortAllocator
--   Commands           cmd/client/main.go, cmd/server/main.go and parsePort of internal/client/tray.go:
--                      the parsing and checking of flags; Reconnect has runLoop
--   Examples           the theorems at concrete inputs
--
-- A function of the source is a function of the same name here. State is passed explicitly: an
-- operation takes the state and returns the new one, with the value or the error of the source.
-- What runs under one lock is one step; goroutines that share a handler are sequences of such steps
-- in any order (Server.Handler.Requests.Acts). Pointers to handlers, requests and channels are
-- numbers, and what a pointer leads to is looked up in a store. Maps are association lists without
-- two entries of a key; the order of an iteration over a map is the order of its list.
--
-- Bounds and fuel: strings are lists of numbers, bytes below 256 where a theorem says so. The fields
-- of frames keep their widths by hypotheses, and request ids and the next port wrap around as in the
-- source. The two loops of the SNI parser run on as many rounds as there are bytes, and each round
-- drops at least three (Server.Sni.Fuel); the loop of Allocate runs one round per port of its range.
-- All other loops are recursion on a list.
--
-- How the parts meet: Client.Serve.Exchange runs startForward of the server, the client's handling of
-- the request and awaitResponse one after the other; Sshtun.Pool fills the interface that the SSH
-- server takes with the theorems of Server.PortAllocator; parsePortRange of Commands gives the
-- allocator its range; Client.Serve uses the streams and the table of forwards.
--
-- Not in the model: the connections themselves, with their deadlines, pings and the authentication
-- timer; the goroutines that write to a public connection (relayPublicConn) and
-- those that accept one; listening; logging; JSON, HAR and HTML output; the tray but for its port;
-- the wiring of the commands; the relaunch after an update. Random bytes, the clock, the outcome of
-- net.Listen, of dials, of calls of the operating system, of writes to a connection and of selects
-- with several ready cases are arguments of the step. SHA-256, ed25519, net, net/http, net/url,
-- strconv, regexp and golang.org/x/crypto/ssh are parameters.
pub mod Prelude
pub mod Protocol
pub mod Server
pub mod SelfUpdate
pub mod Client
pub mod Sshtun
pub mod Commands
pub mod Examples
