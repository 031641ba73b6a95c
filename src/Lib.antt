-- ===== src/Lib.antt =====
-- The Model Interface Gateway: the Go server migd, modelled from core/pkg/mig and core/cmd/migd,
-- the MCP adapter (adapters/mcp) and the Go client (sdk/go). Clients send protocol messages over
-- HTTP, gRPC or NATS; each binding authenticates the caller, writes the caller's tenant into the
-- header of the message, and calls an operation of one shared `Service`. The service keeps
-- everything in maps under one lock: capabilities, schemas, the log of events of each topic and
-- the channels of its subscribers, replies stored under idempotency keys, cancelled messages,
-- quotas and counters, the audit log, open connections, and organisations, tenants and gateways.
--
-- Parts and files:
--
--   Base: shared names; lists and integers over the native naturals, Go's maps as association
--     lists, Go's sorting by its contract, results.
--   Text: what the program uses of Go's strings, strconv and fmt (TrimSpace, Contains, Split,
--     Atoi, %q, ...) on lists of characters, with laws.
--   Types (core/pkg/mig/types.go): the messages; decoded JSON; `Env`, the clock and the random
--     source of one operation.
--   Header (types.go): Normalize and AddIDGMeta.
--   Auth (core/pkg/mig/auth.go): principals, scopes, claims, applyPrincipalHeader. The JWT
--     library is the record `Jwt`, with the documented guarantee of ParseWithClaims as a field.
--   Metrics (core/pkg/mig/metrics.go): the calls on the counters, and path labels.
--   Frames: the answers of the loop over stream frames of http.go, and what the loops over
--     events of HTTP and gRPC have in common. A `Turn` is a round of a loop over frames: what
--     other requests do to the state before it, the frame, and whether the answer can be
--     written. A `Listener` is the same for a loop over events.
--   Http (core/pkg/mig/http.go): Protocol, Admin and Streams have the handlers, Routes the
--     routes with the middleware of auth.go and metrics.go. `Incoming` is what the handlers read
--     of a request, a `Body` what the JSON decoder makes of its body, a `Call` the request as
--     the router hands it on.
--   Service (core/pkg/mig/service.go): the state as a record; a write operation is a function
--     from the state to the state and its reply or error.
--   Service/Protocol: Hello, Discover, Cancel, Heartbeat. Service/Invoke: Invoke in its two
--     halves, `admit` under the read lock and `finish` under the write lock; Laws and Replay for
--     the whole, Race and Overshoot for overlapping invocations, Books for the counters,
--     Cancelled for cancellation.
--   Service/Events: Publish and Subscribe; Laws for the logs, Delivery for the channels, Resumed
--     for the two together, as a client sees them. Service/Admin, Service/Cloud,
--     Service/Connections (connections.go): the administration, the cloud records, the view of
--     connections.
--   Service/History: all writing operations as one step relation, and what every reachable state
--     has; Channels for the numbers of its channels, Filed for the audit file.
--   Grpc (core/pkg/mig/grpc_server.go): enumerations, status codes, message conversions
--     (Convert) the unary methods (Requests, Handlers), the streaming ones with the interceptors
--     (Streams), and all of them by what they do to the state (Methods). `Wire` holds what they
--     use of the protobuf and time libraries.
--   Nats (core/pkg/mig/nats_binding.go): subjects, the six handlers and the start of the
--     binding. Subjects has what NATS documents of wildcards, Echo what becomes of the gateway's
--     own events.
--   Gateway (core/cmd/migd/main.go): the start of the server, and sequences of requests over the
--     three bindings.
--   Mcp (adapters/mcp): Manifest (manifest.go), Post and Server (server.go). Client
--     (sdk/go/migclient/client.go): the Go client.
--   Config (core/pkg/mig/config.go): the configuration from the environment.
--   Tests: concrete requests and states, and the theorems applied to them.
--
-- Numbers: `int` and `int64` are integers with the wrap-around of 64 bits written out (increment,
-- to_int64, add_int64); conversions to unsigned words keep their low bits. A channel has the
-- capacity 32 of the source. All functions are structural recursions; no fuel is used but in the
-- printing of a number, where the number of its digits is enough.
--
-- Choices that come from outside are arguments: which case the select of Invoke takes (`expired`),
-- the clock, the random bytes, the answers of the NATS library and the file system at start. Go
-- does not fix the order in which a map is ranged over; where the program sorts afterwards, so
-- does the model. JSON numbers are kept as texts, for the program does not compute with them; the
-- float of the heartbeat is kept as its numerator over 1000.
--
-- Between two turns of a stream other requests run; within one handler none does, but for the two
-- halves of Invoke, which Invoke/Race takes apart. A panic of a handler is `none`; net/http
-- recovers it, NATS does not, and under gRPC none is modelled. The writes to the audit file may
-- fail (`audit_fails`), and the program ignores that.
--
-- Not modelled: listeners, signals, logging and shutdown (the rest of core/cmd/migd), the command
-- of the adapter, which reads its flags, the pass-through methods of the response recorder and the
-- histogram of durations, the HTML of the status page, generated protobuf code, and the
-- conformance programs. The router, the JSON and YAML decoders, the WebSocket, gRPC, NATS, JWT and
-- Prometheus libraries are arguments, by what they answer. The route /metrics is that of the
-- Prometheus library, and stands under `unrouted`.
pub mod Base
pub mod Text
pub mod Types
pub mod Header
pub mod Frames
pub mod Http
pub mod Auth
pub mod Metrics
pub mod Service
pub mod Grpc
pub mod Nats
pub mod Config
pub mod Gateway
pub mod Mcp
pub mod Client
pub mod Tests
