-- ===== src/Lib.antt =====
-- pipie connects two machines through a signaling server: a daemon answers a client's challenge,
-- checks what it may do, and then both build a pair connection over which a pipe or a port forward
-- runs. This library models that program and proves what makes it correct.
--
-- How the parts interact. The client (internal/pipie/client.go) sends a challenge request as a
-- datagram; the daemon (internal/pipie/daemon.go) draws a token and sends a challenge; the client
-- answers with the token and an encrypted intention; the daemon checks its permissions
-- (internal/pipie/permission), confirms, and starts a service (internal/pipie/daemonservices.go) over
-- a pair connection (lib/pairconnect), as the client does. The services are streams of lib/io.
--
-- Files:
-- - Prelude: Boolean tests, lists and byte strings, and actions, which change a state and return,
--   fail with an error or panic.
-- - Platform: the third-party operations (hashes, AES-GCM, protobuf, restruct, URLs, device ids), a
--   parameter of the model; Platform/Toy and Platform/Codec are values of it for examples.
-- - Permission: NewRegister, the Allow methods, BuildChecker and the Check methods of
--   internal/pipie/permission/permission.go.
-- - Transfer, Exchange, Keys: internal/pipie/struct.go, the messages of
--   internal/pipie/exchangestruct, and the key derivation and encryption of internal/pipie/util.go
--   and daemon.go.
-- - Daemon: `handle_exchange` is handleExchange, with one definition for each intention
--   (Daemon/Serve), reply (Daemon/Confirm) and message (Daemon/Handle), and `daemon_loop` is the
--   receive loop of DaemonLoop. The state is the record World: token map, datagrams that were
--   sent, sessions that were started, whether the daemon was killed. A datagram is cut to the receive
--   buffer's 1500 bytes; the client parses its whole buffer of that size (Handshake/Messages).
-- - Client: `client` is client of internal/pipie/client.go up to the pair builder, `run_task` the
--   three exported clients.
-- - Pair: the builder (Pair/Builder), connectTo and ConnectToWithMux (Pair/Connect),
--   tlsIdentityCheck (Pair/Identity) of lib/pairconnect/pair_conn.go; the message loop of
--   udpTraverse and buildConnectionUDP of lib/pairconnect/conn_builder.go (Pair/Traverse), what
--   udpTraverse and its ping goroutines do around its loop (Pair/Punch), two ends in it with their datagrams and the
--   rounds of sendPingPong (Pair/Peers), buildConnectionTCP with connect and accept (Pair/Tcp, and
--   Pair/TcpServer for its connection to the server), and setReusableFD of
--   lib/pairconnect/platform_notwin.go (Pair/ReusableFd); stabilifyUDPConn of
--   lib/pairconnect/reliable_conn.go (Pair/Reliable).
-- - CommandLine: TestMain of cmd/pipie/main.go, from the parsed flags to the call of DaemonLoop or
--   of a client, with the validators, strings.Split and strconv.ParseInt as it uses them;
--   CommandLine/Certificate has the setup of the certificate and generateCert.
-- - Io: the copy loops of lib/io/util.go (Io/Copy), its signalDealer (Io/Forward/Dealer), the
--   pipes and the setup of a port forward (Io/Identity, Io/Session), the loops of
--   lib/io/port_forward_client.go and port_forward_server.go and their protocol, the goroutine
--   that accepts connections (Io/Forward/Accepting), and startPairing (Io/Forward), in which each deferred
--   call is a step. The deferred calls of a port forward, t.Wait among them, are in Io/Session.
-- - Services: internal/pipie/daemonservices.go.
-- - Pairing: the pair configurations that the daemon and the client make of one exchange, and the
--   identity checks of the two over it (Pairing/Authenticates).
-- - SystemSignals: lib/signal/signal.go, with the signals and the calls as one sequence.
-- - Handshake: the exchange of a running client and a running daemon over a network that delivers,
--   with the laws of the third-party operations that it relies on (Handshake/Laws), and as the two
--   are started from their command lines (Handshake/Started).
-- - PacketChannel: internal/packetchan/packetchan.go, with the steps of its goroutines in any order.
--
-- What the network and the operating system do is in the arguments: the list of the reads, the
-- answers of the calls, or the events of a select, in any order. Random bytes are a function of the
-- number of the draw. Log lines are left out, and so are sleeps.
--
-- Fuel: the write loop of a copy has one round more than there are bytes, and reading a buffer has
-- as many rounds as the buffer has bytes; both are shown to be enough where each call makes
-- progress. The wait of a reliable connection's Close has 202 rounds of ten milliseconds, enough for
-- its two seconds. The goroutine that reads the command channel has one round more than there are
-- bytes. A decimal number is written within as many rounds as its value. All other loops recur on
-- the list of their events, or on the number of rounds left.
--
-- Not modelled: KCP and the relay's protocol (the outcomes of their calls are answers), the setup of the
-- log and reading the flags, the tomb that a signal kills, and the programs of test for trying the
-- services by hand. internal/strelayfinder holds only comments, and the commented code is left out.
pub mod Prelude
pub mod Permission
pub mod SystemSignals
pub mod Transfer
pub mod Exchange
pub mod Handshake
pub mod Platform
pub mod PacketChannel
pub mod Pair
pub mod Keys
pub mod Daemon
pub mod Client
pub mod CommandLine
pub mod Io
pub mod Services
pub mod Pairing
