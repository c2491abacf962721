-- ===== src/Lib.antt =====
-- A model of the voices server: voice chat rooms whose clients talk to a gateway over a WebSocket and
-- send encrypted voice packets over UDP to a voice server, which forwards them to the room.
--
-- Parts, and the files that model them (paths from the root of the repository):
--   Common      names, tests on numbers, and maps as sorted lists of entries, shared by all.
--   Ports       server/voice/core/src/ports.rs: `Ports::new`, `get`, `Drop for PortRef`.
--   Net         the messages of the voice protocol, and `Conn::same_addr`.
--   Crypto      server/voice/crypto/src/lib.rs; the cipher is the parameter `Aead`, with what its
--               documentation says: decrypting what was encrypted gives it back.
--   Connection  server/voice/core/src/channel/connection.rs: `VoiceConnection::run` and `peered`. A
--               round is one branch of a `select!`, and a run is a list of rounds.
--   Forwarder   server/voice/core/src/channel/mod.rs: `Forwarder` with `control_msg`, `socket_msg`
--               and its loop `run`. It owns the connection tasks: a request to a task and its answer
--               are one step, and a task may also take a round of its own at any time.
--   VoiceServer server/voice/core/src/lib.rs: `VoiceServerImpl`, its registry of channels, the
--               requests to a channel and the cleanup task. It uses Ports and Forwarder.
--   Presence    server/gateway/src/server/channels/mod.rs and state/local.rs: the members of a channel
--               on one gateway, the table of channels and the handles of the sessions. Rooms is the
--               table with its voice hosts, where calls come between the two parts of `get_or_init`.
--   Session     server/gateway/src/server/session.rs: `ServerSession`; what the channels, the voice
--               hosts and the client answer is an input of each step, the effects are its output.
--               WebSocket is the task of ws.rs between the client's WebSocket and the session.
--   Registry    server/channels/core/src: the tables of channels and voice servers, registration,
--               staleness and the assignment by the smallest load (lib.rs, db_models/). Query has
--               the operations on servers and channels, Pages the pagination of db.rs, where
--               each query takes the rows in an order of its own.
--   Playback    client/src/play.rs: the buffer of one speaker's packets and `play_stream`, which turns
--               packets and deadlines into frames; Player is `play` with its bell.
--   Client      client/src/udp.rs: Setup is `UdpSetup`, Sender `udp_tx`, Receiver `udp_rx` with its
--               streams; Relayed composes both with the two connections of the voice server. Program
--               is `async_main_` of client/src/main.rs, over Setup and Control.Stream; Greeting puts
--               it together with a session.
--   Control     server/ws-proto/src/client.rs: `ControlStreamPriv`, the client's task at its WebSocket,
--               and Stream, the `ControlStream` of its program. Link puts the task together with the
--               one of the gateway (Session.WebSocket), with the frames on their way.
--   Microphone  client/src/mic.rs: the closure of `data_callback`, and Best, `find_best_input`.
--   Grpc        server/voice/grpc: the messages of service.proto, their conversions, and the service of
--               src/service.rs. How ids and addresses are printed and parsed is the parameter `Codec`,
--               with the hypothesis that what is printed is read back.
--   Hosts       server/gateway/src/voice_instance: the integrated and the remote voice host, and Choice,
--               server/gateway/src/channel_registry: `get_voice_host_for`.
--   ChannelRegistry  server/gateway/src/channel_registry: the requests for servers and channels, local
--               and over the gRPC service of server/channels/grpc (Wire its messages, Remote the
--               service and its client).
--   Members     server/gateway/src/server/channels/state/distributed.rs: the members of a channel
--               over all gateways, in Redis; the commands of different calls come in any order.
--   Udp         server/udp-proto/src/lib.rs: the socket with its buffer; the messages of the other parts
--               are taken as sent and received whole.
--   Rest        server/gateway/src/rest_api.rs over ChannelRegistry and Presence, and
--               client/src/channels_api.rs (Fetch), which asks it.
--   Heartbeat   server/voice/grpc/src: the registration of a voice server and its heartbeat, with their
--               calls of the channels service, over the tables of Registry.
--   Standalone  a session, the local registry and the voice server of one process together.
--
-- Numbers: a `Uuid` is a number. Times are milliseconds. A `u16` port and the `u64` counters wrap as in
-- a release build. Runs are lists of inputs. Two loops have fuel: the IP discovery of Client.Program, to
-- which six rounds are given since it fails after five attempts, and `chunks_exact` of Microphone, to
-- which as much is given as there are samples. What a random generator yields, whether a socket can be
-- bound and whether a send succeeds are inputs.
--
-- Not modelled: the capacity of channels, the scheduling inside one step, logging, and the parts
-- that are I/O or generated (HTTP and JSON, the connections to Redis and to the database,
-- RedisEventSource, the sound card, the choice of a server at the terminal, start-up, the generated
-- gRPC code). gRPC and the tables of PostgreSQL are taken to carry what they are given: where a
-- service answers, its answer arrives. A `HashMap` is a map of which no order is claimed; a
-- `BTreeMap` is iterated in the order of its keys; a `BinaryHeap` gives packets with the same number in
-- the order in which they came.
pub mod Common
pub mod Ports
pub mod Net
pub mod Crypto
pub mod Connection
pub mod Forwarder
pub mod VoiceServer
pub mod Presence
pub mod Session
pub mod Playback
pub mod Client
pub mod Grpc
pub mod Hosts
pub mod Members
pub mod ChannelRegistry
pub mod Standalone
pub mod Control
pub mod Rest
pub mod Heartbeat
pub mod Microphone
pub mod Udp
pub mod Registry
