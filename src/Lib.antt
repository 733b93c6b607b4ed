-- ===== src/Lib.antt =====
-- Verification of QuixIoT, a fleet of simulated devices that talk to a server over HTTP/3 and
-- WebTransport through a UDP proxy which impairs the traffic. Clients publish and subscribe by frames,
-- in datagrams and on streams; the server's broker passes a frame on to each session that subscribed to
-- its topic; the proxy keeps one session for each client address, with one impairment pipeline for each
-- direction, and hands each packet to a pipeline that drops, delays, doubles or reorders it; the server
-- stores uploads in a directory of bounded size; and every binary logs to a file of bounded size.
--
-- The parts, and the files that model them:
--   * internal/wire/frame.go: Wire.antt. `Frame`, `Encode` and `Decode` are `Frame`, `encode` and
--     `decode`; `WriteStreamFrame` and `ReadStreamFrame` act on the bytes of a stream and the way it ends.
--     The varints of quic-go are the parameter `Varint`, with the laws that RFC 9000 gives them; the
--     tests of Wire instantiate it. `readUniStream` of internal/client/pubsub.go is `read_frames`.
--   * internal/impair/pipeline.go: Impair. Impair/Config.antt has `DirectionConfig`, `Profile`, `Validate`
--     and `NormalizeProfile`; Impair/Rate.antt `transmitDuration`, in the arithmetic of int64;
--     Impair/Heap.antt the binary heap of container/heap that `packetHeap` drives; Impair/Pipeline.antt
--     `Enqueue`, `Flush`, `ReleaseReady`, `NextWake` and `schedule` with the hooks. The random generator
--     is a sequence of draws that the state carries; times are nanoseconds.
--   * internal/impair/profiles.go: Impair/Profiles.antt, the shipped profiles and their lookup.
--   * internal/broker/broker.go and session.go: Broker.antt. One state holds the topics, the sets of the
--     sessions, the gauge and the outgoing channels. Where a channel is full `enqueueDatagram` gives up the
--     oldest frame; a send that waits with no end is `none`. `Publish` delivers with no lock held: a `Turn`
--     for each subscriber gives what other goroutines do between its operations on the channels, and
--     Broker/Handlers.antt joins the handlers to the steps of Broker/Subscribers.antt.
--   * internal/client/pubsub.go (`PublishDatagram`, `readDatagrams`, `deliver`) and session.go of the broker
--     (a round of `datagramReader` and of `datagramWriter`): Datagrams.antt. It joins Wire and Broker.
--   * internal/client/pubsub.go (`writeControl`, `readUniStream`) and session.go of the broker (`serve`,
--     `readControl`, a round of `streamWriter`): Streams.antt, the control stream and the streams of
--     deliveries, from the publisher to the subscriber.
--   * internal/roles/uploader.go: Roles.antt, `safeID` and the name in `UploadOnce`; UploadPath.antt,
--     `UploadOnce` and `Run`, with `UploadDeterministic` of internal/client/client.go. It joins UploadBody,
--     Roles and Upload/Serving.antt.
--   * internal/client/client.go (`deterministicReader`): UploadBody.antt.
--   * internal/proxy/proxy.go: Proxy.antt, the table of sessions. Each critical section of
--     `getOrCreateSession`, `removeSession`, `sweepLoop` and `Close` is a definition of its own, so that the
--     steps of other goroutines fall between them. Proxy/Serving.antt: a round of `Serve`, with the whole of
--     `getOrCreateSession` and `sessionSeed`. Proxy/Relay.antt: the channels of a session in front of its loops.
--     Proxy/Closing.antt: `Close` as a whole, with its errors.
--   * internal/proxy/proxy.go (`applyLoop`, `flushReady`, `resetTimer`): Loops.antt, a direction's loop as a
--     function of the rounds that its select brings.
--   * internal/client/shared_conn.go: SharedConn.antt, the one connection of a client behind its lock, and the
--     registry of the sessions on it. `none` is a wait without end, and `panicked` a send on a closed channel.
--   * internal/upload/upload.go: Upload.antt, `sanitizeFilename` and `PruneDir`; Upload/Serving.antt,
--     `ServeHTTP`. The listing of the directory and the answers of the file system are arguments.
--   * internal/tlsutil/tlsutil.go: Certs.antt, `GenerateLocal` and `writePEM`, over the keys and signatures of
--     crypto/x509.
--   * internal/logging/logging.go: Logging.antt, the rotating file over a disk, each of whose calls may
--     fail.
--   * internal/roles/publisher.go, subscriber.go and poller.go: Roles/Stamps.antt, the stamped payloads and the
--     checks of `Run`.
--   * cmd/client/main.go, internal/config/config.go and `handleConfig` of internal/server/server.go:
--     ClientCommand.antt, from the defaults, the file and the flags to the role that is started.
--   * cmd/proxy/main.go: ProxyCommand.antt, `loadProfile`; ProxyCommand/Run.antt, `run` from its configuration
--     to the proxy. cmd/server/main.go: ServerCommand.antt, `run` from its configuration to the server.
--   * cmd/fleet/main.go: Fleet.antt, the children, the targets file and the run.
--   * internal/server/server.go: Server/Start.antt, `New` and `Close`; Server/Paths.antt and Server/Routes.antt, the
--     routes of its mux as net/http matches them, with the escaping of names in paths by the client;
--     Server/Recorder.antt, `statusRecorder`, `routeLabel` and `instrumentHTTP`.
--   * internal/client/client.go (`GetState`, `GetConfig`) and internal/roles/poller.go: Polling.antt, over a way
--     to answer requests, for which Polling/Served.antt puts the server. UploadPath/OverHttp.antt does so for
--     uploads.
--   * Prelude.antt: the names that all share; Boolean tests, lists, results, integers and strings.
--
-- Bounds and fuel. Native numbers stand for Go's integers, and the places where an int64 or a uint64 can
-- wrap write out the wrap-around. The loops of the heap and of `ReleaseReady` run on fuel, the length of the
-- queue: each round of `ReleaseReady` takes a packet off, and a place in the heap at least doubles or
-- halves on each round of a sift, so that neither comes to the end of its fuel before it is done.
--
-- Prelude/Json.antt is what encoding/json makes of a string; a client's ID that is not UTF-8 does not come
-- back from the server as it was.
--
-- Not modelled: sockets, QUIC, TLS and HTTP, which the code calls; the goroutines that join the channels to
-- them; internal/metrics, which calls a library; what is left of the commands under cmd, the writing of logs
-- and their output; traffic counters and log lines; and all that is not Go.
pub mod Broker
pub mod Certs
pub mod ClientCommand
pub mod Datagrams
pub mod Fleet
pub mod Impair
pub mod Logging
pub mod Loops
pub mod Polling
pub mod Prelude
pub mod Proxy
pub mod ProxyCommand
pub mod Roles
pub mod Server
pub mod ServerCommand
pub mod SharedConn
pub mod Streams
pub mod Upload
pub mod UploadBody
pub mod UploadPath
pub mod Wire
