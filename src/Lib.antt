-- ===== src/Lib.antt =====
-- A model of service-template, a template of Go services: an application that starts components and
-- shuts them down in order, the containers that its programs are wired with, a worker pool over a
-- store, a load balancer over the backends that etcd lists, the registration in etcd, the migration of
-- a RabbitMQ cluster, an HTTP server with its middlewares, server-sent events, connections of
-- WebSocket with their clients, and generic data structures.
--
-- Parts:
-- - application/application.go, the list of shutdown functions: App. `register_shutdown`,
--   `shutdown_by_name` and `stop` are the methods of these names; App/Order and App/Register are about
--   the sorted list, App/Stop about what is called. A shutdown function is a change of any state.
--   App/Signals has `Start`, `RegisterRecovers` and `Run` as steps of the program and the system.
-- - pkg/data_struct: DataStruct. LinkedList keeps nodes in the heap of DataStruct/Heap, with the
--   program's pointers; the lemmas below it relate the nodes to the list of values. A walk along the
--   nodes has as much fuel as the list has nodes, which is enough since each step goes to another node
--   of the list. Queue and Stack are slices.
-- - pkg/map_store.go, and the commands of pkg/worker_pool.go: Store.
-- - pkg/worker_pool.go: Pool. `Move` is a step of a worker, the goroutine in `Run`; `Call` a step of
--   the goroutine that calls `Apply`, `Stop`, `Reconnect` and `Run`; `Step` lets any of them go next,
--   and may cancel the main context. A state of the pool is what is shared, where each worker stands
--   and where the caller stands. Pool/Invariant has what holds between steps, Pool/Safety what callers
--   rely on, Pool/Stuck is about `Stop` when workers are gone. One goroutine calls the methods, as in
--   cmd/custom_worker_pool/main.go. The commands of Store are the tasks there.
-- - pkg/etdc_load_balancer.go: Balancer. A backend is an address in `Fleet`, since the health checks
--   and the balancer share it by pointer. `find_next` has a round for each backend, as the loop in
--   `RoundRobbinNextBackend` does. Balancer/Rotation is about the next backend, Balancer/Update about
--   `UpdateBackends`, Balancer/Health about `HealthCheck`, whose goroutines end in any order,
--   Balancer/Watch about `Run` and `WatchBackends`, and Balancer/Safety about all of them in any order.
--   Balancer/Election is `DoElection`.
-- - pkg/etcd.go: Etcd. What etcd answers is given for each attempt of `restart`; Etcd/Restart is about
--   the attempts and the loop of `Register`, Etcd/Session about the session and the lease, Etcd/Connect
--   about the service that is made first.
-- - pkg/migrations_rabbit_mq.go, pkg/migrations_custom.go and rabbit_migrations: Migration. What redis,
--   postgres and the brokers answer is given for each call. Migration/First is about the first call,
--   Migration/Brokers about the operations on the brokers, Migration/Once about the later calls.
--   Migration/Goose is pkg/migrations_sql.go, under the same kind of lock.
-- - container/dig.go: Container. Container/Builders has the calls of `Provide` of each builder and what
--   the programs of cmd/ ask their containers for; go.uber.org/dig is the record `Dig`, which has its
--   operations and what it documents of them. Container/Order is about providers in an order in which
--   each takes what is there, Container/Resolve about the builders.
-- - internal/container.go: Locator. A Go map is a function into options; the locators that services are
--   given stand in a store of their own, by the address of the service.
-- - server/http_server.go, internal/http_handler/empty.go, pkg/serializer.go and the logger of a
--   context in pkg/logger.go: Http. Http/Writer has the response as net/http keeps it and the wrapper
--   around it, Http/Middleware the middlewares as functions of handlers, where a panic is a part of a
--   handler's result, Http/Server which handler a server runs, and Http/Empty the handler of /empty.
--   What gorilla/mux makes of a list of middlewares is a parameter, of which the theorems take the
--   order that it documents; so is what zap does with a nil logger.
-- - cmd/sse_server/main.go and server/http_client.go: Sse. Texts are lists of runes. `listen` has fuel
--   for its turns; one more than the bytes is enough (Sse/Ends). Sse/Passes is about a turn of the
--   loop, Sse/RoundTrip about the events of a server and the messages of its client. Sse/Connection has
--   the transport to one host. Sse/Handler has the handler of the events as calls of its writer, Sse/Wire
--   what they leave in the response, and Sse/EndToEnd puts the handler, the middlewares of Http and the
--   client together.
-- - server/websocket_server.go, server/websocket_clent.go, internal/websocket_handler and
--   internal/websocket_client: WebSocket. Hub is the set of connections, Pump the two loops that
--   write, Router and Handler the loop that reads and answers, Client the client that connects again,
--   Dial what it connects with, UserInput the lines that a user types.
--   Reads, writes and what a `select` takes are given turn by turn. The channel between the loops has
--   room for 256 messages, and is taken to have room for each.
-- - cmd/*/main.go of the services: Programs. Each is the list of its calls; the functions that App runs
--   at the end are those that the list registers (Programs/Order). Programs/Lifecycle cuts the list short
--   anywhere. Programs/WorkerPool is cmd/custom_worker_pool/main.go, over Pool and Store (Pool/Replay has
--   what a store is made of); Programs/GrpcClient, Programs/Clients and Programs/Blob are the clients and
--   cmd/t/main.go.
-- - cmd/epoll/main.go: Epoll, a loop over what `EpollWait` returns. The capacity of the pipe is a
--   parameter; twice the size of the buffer is enough (Epoll/Bounds).
-- - config/config.go: Config.
-- - pkg/elastic.go: Elastic, where a result comes with how often a body was closed.
-- - pkg/custom_gc.go: Gc, whose product of two numbers of 64 bits is written out.
-- - internal/consumer and pkg/rabbit_mq.go: Consumer. internal/cron/cron_service.go and pkg/cron.go:
--   Cron. server/grpc_server.go, server/grpc_client.go and internal/grpc_handler: Grpc. What their
--   libraries answer is given.
--
-- Base has the names that the modules share. The lists of the library are measured by another number
-- than the native one, so `length`, `take` and the like stand in Base/Lists under the library's names.
--
-- Mutexes and read-write locks are held for a whole operation, which is one step here. An index out of
-- range, a nil pointer and an explicit panic are values. Go's `int` is taken as unbounded: the lists
-- and indices stay far below 2^63.
--
-- Not modelled: the wrappers of the databases, the encoders of the logs, the profiles, the programs that
-- print values of libraries (cmd/execution, cmd/generic), generated code, and what the constructors in
-- the containers do. They are calls of libraries with little logic between them.
pub mod App
pub mod Balancer
pub mod Base
pub mod Config
pub mod Consumer
pub mod Container
pub mod Cron
pub mod DataStruct
pub mod Elastic
pub mod Epoll
pub mod Etcd
pub mod Gc
pub mod Grpc
pub mod Http
pub mod Locator
pub mod Migration
pub mod Pool
pub mod Programs
pub mod Sse
pub mod Store
pub mod WebSocket
