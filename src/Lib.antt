-- ===== src/Lib.antt =====
-- The user service of this repository: a gRPC server over a storage backend, its JWT tokens and its
-- interceptors.
--
-- The parts and how they interact. A request passes the interceptors (interceptors/), of which one
-- asks the token manager (auth/jwt.go) who is calling, and reaches a handler of the service
-- (server/server.go). The handler checks it and calls the storage interface (server/storage.go),
-- which the in-memory backend (server/memory_storage.go) and the PostgreSQL backend
-- (server/postgres_storage.go) implement. The messages are the generated structs of
-- proto/pkg/example.pb.go. The web UI (ux/) reaches the service through a gateway, which main.go
-- starts beside the server, cmd/client calls the service itself, cmd/tokengen generates the tokens,
-- and cmd/respawn hands a listener on to a new process.
--
-- The files:
--   Common         the library's names, numbers, texts and maps that the other files share
--   Proto          proto/pkg/example.pb.go: the messages as records, enumerations as their int32
--   Errors         a gRPC status or another error; `Result` for a call that may fail
--   Storage        server/storage.go: the interface `Storage` as a record of its methods
--   Clone          server/memory_storage.go: cloneUser and what it calls; Clone/Laws
--   Memory         server/memory_storage.go: MemoryStorage. Its state is an association list from
--                  ids to users, and each method is a function of it, since the lock makes a method
--                  one step. Memory/Laws has the invariant, Memory/Spec the abstract store, a
--                  function from ids to users, and Memory/Listing the filters of the listings.
--                  Memory/Locks has the mutex and when the methods take it, and under it Laws
--                  what they hold and Progress that they exclude each other and end
--   Server         server/server.go: the unary handlers, over any backend; Server/Streams has the
--                  listings and the streaming handlers, and the other children are named for
--                  what they prove
--   Concurrent     server/server.go: the unary handlers as the storage calls that they make, which a
--                  scheduler interleaves: a step relation on the programs and the storage.
--                  Concurrent/Laws compares a program with its handler, Concurrent/Runs is about
--                  all interleavings, Concurrent/Handlers about a user that was deleted,
--                  Concurrent/Update about two updates at once and Concurrent/Sync about two
--                  messages of SyncUsers
--   Postgres       server/postgres_storage.go: its methods over a pool, whose state is the database.
--                  Texts has the SQL statements, Driver what is called of other code, Conversion
--                  a user as a row and back, Query the listing's query, Connect the
--                  construction. Table states what PostgreSQL and the JSON library document, as
--                  hypotheses; Restored, Laws and Listings prove over them
--   Auth           auth/jwt.go: the token manager and the claims, over the jwt library as a
--                  parameter; Auth/Laws states what that library documents, and Auth/Issued is
--                  about the tokens that were generated
--   Interceptors   interceptors/: contexts, the world and the handlers that interceptors wrap. Jwt
--                  is jwt_auth.go, ApiKey is auth.go, Metrics is metrics.go, Logging is logging.go,
--                  Otel is otel_interceptors.go
--   Main           main.go: the settings from the environment and the lists of interceptors.
--                  Main/Tls has the certificates of main.go and insecure/insecure.go, Main/Start
--                  main itself as steps on the world of what it did and deferred, and under it
--                  Steps the steps, Release what is released and Failures how main ends;
--                  Main/Profiling has the routes of the profiling server
--   Client         cmd/client/main.go: the connection and the messages of the demonstration client.
--                  Client/Lines has its loops over Recv and Send, Demonstrations the calls over any
--                  service, Run its main. Served is the service of the in-memory server; States,
--                  Ends, Streams and Outcome follow its store through the demonstrations, and
--                  Chapters is a table of what is printed, Prints and Headings are about the
--                  output, and Tokens about the token that the client sends
--   TokenGen       cmd/tokengen/main.go: main over its flags and environment
--   Telemetry      otel/setup.go: Setup and the function that it returns; Telemetry/Http has
--                  otel/http_middleware.go
--   Respawn        cmd/respawn/main.go: main as the events that it causes
--   Ux             ux/handlers/handlers.go: the names of roles and statuses; Ux/Http is what the
--                  handlers call, the client package included, and Ux/Handlers the handlers.
--                  Ux/Routes has the routes of ux/main.go, Ux/Program its main and Ux/Answers what
--                  is answered to any request
--   Mux            net/http's ServeMux, as far as the programs use it
--   ControlPlane   control-plane/server.go: the answer to a path, and main
--   Tests          concrete users, stores, requests and tokens
--
-- How code is rendered. A message type that the protobuf runtime owns is a parameter, with a record
-- of what the code asks of it (`Timestamps`, `Runtime`). A clock reading is an argument, as are the
-- order in which Go visits a map, what `Send` returns for each message, and the texts of the
-- libraries. A stream's input is the list of its messages and the way it ends. Counters keep
-- their width: int32 and int64 are bit patterns modulo 2 ^ 32 and 2 ^ 64. All loops are structural
-- recursion over what they visit, so no fuel is needed.
--
-- Not modelled: server/acme_lego.go, which no build includes, initTracer of ux/main.go, which only
-- calls the OpenTelemetry libraries, tracing spans outside the interceptors, and the sharing of
-- pointers between a stored user and its clone, whose timestamps Go does not copy. Messages that
-- programs log are not modelled either, but for those of the client and those that end a program. Interleavings are those of
-- the unary handlers and of messages of SyncUsers; the other streaming handlers are run alone, and
-- a failure of a goroutine of main.go is met where main waits for a signal.
pub mod Common
pub mod Proto
pub mod Errors
pub mod Storage
pub mod Clone
pub mod Memory
pub mod Server
pub mod Concurrent
pub mod Postgres
pub mod Auth
pub mod Interceptors
pub mod Main
pub mod Client
pub mod TokenGen
pub mod Telemetry
pub mod Respawn
pub mod Mux
pub mod ControlPlane
pub mod Ux
pub mod Tests
