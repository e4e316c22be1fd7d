-- ===== src/Programs.antt =====
-- The main functions under cmd/: what each does once its container gives what it asks for, statement by
-- statement. A shutdown function notes its name.
pub mod Order
pub mod Lifecycle
pub mod WorkerPool
pub mod GrpcClient
mod Clients
mod Blob
mod Examples
use service_template.Base.{String, List, [], ◌∷◌, ◌++◌, ℤ, pos, negsuc}
use service_template.App.{Shutdown}

-- A call that one of the functions makes.
pub data Statement : Type 0 where
  register_shutdown_of : (name : String) (priority : ℤ) → Statement
  migrate : (path table : String) → Statement
  migrate_rabbit_mq : (table : String) → Statement
  register_metrics : Statement
  create_session : Statement
  register_service : Statement
  do_election : Statement
  run_load_balancer : (prefix : String) → Statement
  set_publishers : Statement
  register_consumer : (queue exchange : String) → Statement
  run_consumers : (names : List String) → Statement
  push : Statement
  add_schedule : (spec lock : String) → Statement
  start_cron : Statement
  create_grpc_server : (port : String) → Statement
  create_grpc_server_tls : (port : String) → Statement
  create_http_server : (port : String) → Statement
  create_https_server : (port : String) → Statement
  register_ws_routes : Statement
  set_gc_percent : (off : ℤ) → Statement
  memory_compaction_cycle_of : (heap_size_percent : ℤ) → Statement
  allocate : (goroutines : ℤ) → Statement

pub data Program : Type 0 where
  http_server : Program
  consumer : Program
  background_rabbit : Program
  cron : Program
  grps_server : Program
  etcd_balancer : Program
  sse_server : Program
  websocket_server : Program
  custom_gc : Program

unfoldable pub http_server_main : List Statement
http_server_main =
    register_metrics
    ∷ register_shutdown_of "prometheus-http" (pos 200)
    ∷ register_shutdown_of "logger" (pos 101)
    ∷ register_shutdown_of "postgres" (pos 100)
    ∷ migrate "./migrations" "goose_db_version"
    ∷ migrate_rabbit_mq "rabbit_migrations"
    ∷ create_session
    ∷ register_shutdown_of "etcd_session" (pos 98)
    ∷ register_shutdown_of "etcd-client-service" (pos 99)
    ∷ register_service
    ∷ create_http_server "HTTP_PORT"
    ∷ register_shutdown_of "simple_https_server" (pos 1)
    ∷ create_https_server ":8433"
    ∷ register_shutdown_of "simple_https_server" (pos 1)
    ∷ []

-- What cmd/consumer/main.go and cmd/background_rabbit/main.go have in common.
unfoldable pub consumers_main : List Statement
consumers_main =
    register_shutdown_of "logger" (pos 101)
    ∷ register_shutdown_of "postgres" (pos 100)
    ∷ migrate "./migrations" "goose_db_version"
    ∷ register_shutdown_of "rabbitmq" (pos 100)
    ∷ migrate_rabbit_mq "rabbit_migrations"
    ∷ register_shutdown_of "publisher" (pos 9)
    ∷ register_shutdown_of "publisher1" (pos 9)
    ∷ set_publishers
    ∷ register_shutdown_of "redis-node" (pos 100)
    ∷ register_consumer "my_queue" "my_events"
    ∷ register_shutdown_of "consumer" (pos 10)
    ∷ register_consumer "test_queue" "events"
    ∷ register_shutdown_of "consumer1" (pos 10)
    ∷ run_consumers ("consumer" ∷ "consumer1" ∷ [])
    ∷ []

unfoldable pub background_rabbit_main : List Statement
background_rabbit_main = consumers_main ++ push ∷ []

unfoldable pub cron_main : List Statement
cron_main =
    register_shutdown_of "logger" (pos 101)
    ∷ register_shutdown_of "postgres" (pos 100)
    ∷ migrate "./migrations" "goose_db_version"
    ∷ register_shutdown_of "rabbitmq" (pos 100)
    ∷ migrate_rabbit_mq "rabbit_migrations"
    ∷ register_shutdown_of "redis-node" (pos 100)
    ∷ add_schedule "* * * * * *" "blank_cron_lock"
    ∷ add_schedule "* * * * * *" "blank_1_cron_lock"
    ∷ start_cron
    ∷ register_shutdown_of "cron" (pos 10)
    ∷ []

unfoldable pub grps_server_main : List Statement
grps_server_main =
    register_shutdown_of "logger" (pos 101)
    ∷ register_shutdown_of "postgres" (pos 100)
    ∷ migrate "./migrations" "goose_db_version"
    ∷ register_shutdown_of "rabbitmq" (pos 100)
    ∷ migrate_rabbit_mq "rabbit_migrations"
    ∷ register_shutdown_of "redis-node" (pos 100)
    ∷ create_grpc_server ":50051"
    ∷ register_shutdown_of "gRPC server" (pos 1)
    ∷ create_grpc_server_tls ":50052"
    ∷ register_shutdown_of "gRPCS server" (pos 1)
    ∷ []

unfoldable pub etcd_balancer_main : List Statement
etcd_balancer_main =
    register_shutdown_of "logger" (pos 101)
    ∷ register_shutdown_of "etcd-client-service" (pos 99)
    ∷ register_service
    ∷ create_session
    ∷ register_shutdown_of "etcd_session" (pos 98)
    ∷ do_election
    ∷ register_shutdown_of "election" (pos 97)
    ∷ run_load_balancer "/services/my-service/"
    ∷ create_http_server "HTTP_PORT"
    ∷ register_shutdown_of "simple_https_server" (pos 1)
    ∷ []

unfoldable pub sse_server_main : List Statement
sse_server_main =
    register_shutdown_of "logger" (pos 101)
    ∷ create_http_server ":8081"
    ∷ register_shutdown_of "websocket_http_server" (pos 1)
    ∷ create_https_server ":8080"
    ∷ register_shutdown_of "websocket_https_server" (pos 1)
    ∷ []

unfoldable pub websocket_server_main : List Statement
websocket_server_main =
    register_shutdown_of "logger" (pos 101)
    ∷ register_shutdown_of "garbage_collector" (pos 1)
    ∷ register_ws_routes
    ∷ create_http_server ":8081"
    ∷ register_shutdown_of "websocket_http_server" (pos 1)
    ∷ create_https_server ":8080"
    ∷ register_shutdown_of "websocket_https_server" (pos 1)
    ∷ []

unfoldable pub custom_gc_main : List Statement
custom_gc_main =
    set_gc_percent (negsuc 0)
    ∷ register_shutdown_of "logger" (pos 101)
    ∷ memory_compaction_cycle_of (pos 10)
    ∷ register_shutdown_of "memory-compaction" (pos 100)
    ∷ allocate (pos 50000)
    ∷ []

unfoldable pub main_of : Program → List Statement
main_of http_server = http_server_main
main_of consumer = consumers_main
main_of background_rabbit = background_rabbit_main
main_of cron = cron_main
main_of grps_server = grps_server_main
main_of etcd_balancer = etcd_balancer_main
main_of sse_server = sse_server_main
main_of websocket_server = websocket_server_main
main_of custom_gc = custom_gc_main

abbrev pub noting : String → ℤ → Shutdown (List String)
noting name priority = record {
  priority = priority;
  name = name;
  shutdown_func = λ names. names ++ name ∷ [];
}

-- The calls of `RegisterShutdown` among the statements.
abbrev pub shutdowns : List Statement → List (Shutdown (List String))
shutdowns [] = []
shutdowns (register_shutdown_of name priority ∷ statements) =
    noting name priority ∷ shutdowns statements
shutdowns (_ ∷ statements) = shutdowns statements
