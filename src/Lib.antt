-- ===== src/Lib.antt =====
-- The IoT device management API: a Go service that registers devices, ingests their telemetry,
-- raises alerts, broadcasts events and authenticates its users.
--
-- Parts and files. Each paragraph names the source by its path in the repository.
-- * internal/models/models.go is Models: the records that all parts exchange.
-- * internal/store/store.go and users.go are Store, the contracts `Store` and `UserStore` as
--   interfaces; Store/Laws says what the services rely on of them. `MemoryStore` of store.go and
--   memory_users.go is Store/Memory and Store/Memory/Users: one function per method, from a state to
--   a result and a state. A method holds the store's lock throughout, so it is one step, and a run
--   of the program is a sequence of calls (Store/Memory/Calls).
-- * internal/auth/auth.go is Auth (`NewManager`, `Generate`, `Parse`), service.go is Auth/Service
--   (accounts, `Login`, `Refresh`, `Logout`) over any `UserStore`, and middleware.go is
--   Auth/Middleware, in front of the handlers of Http.
-- * internal/alerts/alerts.go is Alerts, internal/analytics/analytics.go is Analytics.
-- * internal/realtime/hub.go is Hub: references to channels in a heap; a panic is `none`. A method of
--   the hub is one step. `Broadcast` holds its lock shared, and two broadcasts at once are taken one
--   after the other.
-- * internal/worker/pool.go is Pool: a `select` returns all its ready outcomes, and the callers and
--   workers interleave as a step relation. Runs of the workers alone (Pool/Drain) are bounded by what
--   they have left to do, so no fuel stands in a statement about them.
-- * internal/store/mongo.go, mongo_mapping.go and mongo_users.go are Store/Mongo: the state of five
--   collections and their indexes, with the documents (Store/Mongo/Documents), the driver as a
--   parameter (Store/Mongo/Collections) and the methods (Devices, Telemetry, Users). A filter is a test
--   of documents and a `$set` a change of one. Store/Mongo/Server says what is relied on of a server
--   that answers every call, BSON included, and Store/Mongo/Shelf is such a server.
-- * internal/service/service.go is Service: the device lifecycle, `processTelemetry` and
--   `ReconcileStatuses` on a state of the store, the publisher and the status cache, over any `Store`,
--   `Publisher` and `StatusCache`; Service/Queries has the methods that pass a call on and the loop of
--   `RunStatusReconciler`. `IngestTelemetry` submits a sample to the pool. `processTelemetry` is there
--   twice: as one function, and in Service/Workers one call of the store, the cache or the publisher at
--   a time, where the workers interleave in any order.
-- * internal/cache/redis.go is Cache: the status cache and the event bus, as a `StatusCache` and a
--   `Publisher` over any client; Service/Caching says what the service relies on of a cache.
-- * internal/api/handlers.go is Api: the state behind the handlers, what they read and answer;
--   Api/Sessions, Api/Users, Api/Devices and Api/Readings have the handlers, Api/Websocket the loop of a
--   connection, on the wakes of its select, and Api/Routes the table of routes behind the
--   authentication, with the redirection of paths that are not clean. A request acts on the state that all requests share as one step.
-- * internal/mqtt/mqtt.go is Mqtt: the options, the topic parser and `onMessage`, over any `Ingestor`.
-- * internal/config/config.go is Configuration: `Load` over any environment. cmd/server/main.go is
--   Startup: how each part is made, and the seeding of the admin user. Startup/Launch puts them
--   together in the order of `main`, where the first error ends the start; Startup/Process is the rest
--   of `main`, a step relation: the signal, the deferred calls in the order in which they run, and the
--   wait for the workers, while these and those who submit samples move.
--
-- Go itself. A method that returns an error is a `Result` with the state that it leaves. A Go map is
-- an association list without duplicate keys, visited in the order of the list; a nil map is the
-- empty one. Times are instants in nanoseconds (GoTime), durations saturate as `Sub` does, and a
-- `float64` is its 64 bits with the order of IEEE 754 (Float64). Every loop is a structural
-- recursion over the slice or map that it ranges over, so the code is modelled without fuel; a loop
-- around a `select` runs on the sequence of the cases that its select takes. `moves` of Service/Workers
-- counts the moves of a worker, and Service/Workers/Alone says how many are enough.
--
-- Parameters. bcrypt, JWT, JSON, SHA-256, hex and base64, the parsers of `time` and `strconv`, the
-- arithmetic of `float64`, `fmt.Sprintf`, gorilla/mux, the driver of MongoDB, the clients of Redis and of
-- MQTT, and every draw of the clock, of random bytes and of UUIDs are arguments. What is relied on of them
-- stands as a record of laws where it is used: Auth/Credentials (JWT), Api/Access (mux),
-- Store/Mongo/Server (MongoDB), Cache/Statuses and Cache/Bus (Redis and JSON).
--
-- Not modelled: logging, the deadlines of calls, which show as errors of the calls, and the headers of a
-- response. The HTTP server, the signals and the failure of the listener are steps of the environment.
-- While workers interleave, no other goroutine calls the store. The int64 counters of the pool are
-- unbounded numbers here.
pub mod Common
pub mod GoTime
pub mod GoStrings
pub mod Float64
pub mod Models
pub mod Http
pub mod Store
pub mod Hub
pub mod Pool
pub mod Auth
pub mod Alerts
pub mod Analytics
pub mod Service
pub mod Cache
pub mod Mqtt
pub mod Configuration
pub mod Api
pub mod Startup
