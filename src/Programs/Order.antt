-- ===== src/Programs/Order.antt =====
-- The main functions under cmd/: what happens in which order when a program starts and stops.
use service_template.Base.{
  Bool, true, false, ◌&&◌, ◌||◌, not, String, str_eq, List, [], ◌∷◌, if◌then◌else◌, ◌≡◌, refl,
}
use service_template.App.{stop}
use service_template.App.Stop.{register_all}
use service_template.Programs.{
  Statement, migrate, migrate_rabbit_mq, run_consumers, push, add_schedule, start_cron,
  create_grpc_server, create_grpc_server_tls, create_http_server, create_https_server, Program,
  http_server, consumer, background_rabbit, cron, grps_server, etcd_balancer, sse_server,
  websocket_server, http_server_main, consumers_main, background_rabbit_main, cron_main,
  grps_server_main, etcd_balancer_main, sse_server_main, websocket_server_main, custom_gc,
  custom_gc_main, main_of, shutdowns,
}

abbrev pub mentions : String → List String → Bool
mentions name [] = false
mentions name (n ∷ names) = str_eq n name || mentions name names

-- The names have `later` only behind the last place of `first`, and both.
abbrev pub is_before : (first later : String) → List String → Bool
is_before first later [] = false
is_before first later (n ∷ names) =
    let rest = is_before first later names in
    if str_eq n first
    then mentions later names && (not (mentions first names) || rest)
    else not (str_eq n later) && rest

-- The names of the functions that `Stop` runs, in order, when the program has come to its end.
abbrev pub stop_order : Program → List String
stop_order p = (stop (register_all (shutdowns (main_of p)) []) []).1

-- The pairs of a part of the program and one that it uses: servers and consumers use connections, the
-- election and the session use etcd, and all of them log.
abbrev pub uses : Program → List (String × String)
uses http_server =
    ("simple_https_server", "postgres")
    ∷ ("simple_https_server", "etcd_session")
    ∷ ("etcd_session", "etcd-client-service")
    ∷ ("etcd-client-service", "logger")
    ∷ ("postgres", "logger")
    ∷ []
uses consumer =
    ("consumer", "rabbitmq")
    ∷ ("consumer1", "rabbitmq")
    ∷ ("publisher", "rabbitmq")
    ∷ ("publisher1", "rabbitmq")
    ∷ ("consumer", "postgres")
    ∷ ("rabbitmq", "logger")
    ∷ ("redis-node", "logger")
    ∷ []
uses background_rabbit =
    ("consumer", "rabbitmq")
    ∷ ("consumer1", "rabbitmq")
    ∷ ("publisher", "rabbitmq")
    ∷ ("publisher1", "rabbitmq")
    ∷ ("consumer", "postgres")
    ∷ ("rabbitmq", "logger")
    ∷ ("redis-node", "logger")
    ∷ []
uses cron =
    ("cron", "redis-node")
    ∷ ("cron", "postgres")
    ∷ ("cron", "rabbitmq")
    ∷ ("redis-node", "logger")
    ∷ []
uses grps_server =
    ("gRPC server", "postgres")
    ∷ ("gRPCS server", "postgres")
    ∷ ("gRPC server", "rabbitmq")
    ∷ ("gRPCS server", "redis-node")
    ∷ ("postgres", "logger")
    ∷ []
uses etcd_balancer =
    ("simple_https_server", "etcd-client-service")
    ∷ ("election", "etcd_session")
    ∷ ("etcd_session", "etcd-client-service")
    ∷ ("etcd-client-service", "logger")
    ∷ []
uses sse_server = ("websocket_http_server", "logger") ∷ ("websocket_https_server", "logger") ∷ []
uses websocket_server =
    ("garbage_collector", "logger")
    ∷ ("websocket_http_server", "logger")
    ∷ ("websocket_https_server", "logger")
    ∷ []
uses custom_gc = ("memory-compaction", "logger") ∷ []

-- Statements that serve requests, deliveries or a schedule, and those that migrate.
abbrev pub serves : Statement → Bool
serves (run_consumers names) = true
serves push = true
serves (add_schedule spec lock) = true
serves start_cron = true
serves (create_grpc_server port) = true
serves (create_http_server port) = true
serves (create_https_server port) = true
serves (create_grpc_server_tls port) = true
serves _ = false

abbrev pub migrates : Statement → Bool
migrates (migrate path table) = true
migrates (migrate_rabbit_mq table) = true
migrates _ = false

-- No statement migrates once one serves.
abbrev pub migrates_first : (serving : Bool) → List Statement → Bool
migrates_first serving [] = true
migrates_first serving (s ∷ statements) =
    not (serving && migrates s) && migrates_first (serving || serves s) statements

-- Each program has made its migrations before it serves anything.
pub migrates_first-main_of : (p : Program) → migrates_first false (main_of p) ≡ true
unfolding main_of http_server_main consumers_main background_rabbit_main cron_main grps_server_main
    etcd_balancer_main sse_server_main websocket_server_main custom_gc_main
migrates_first-main_of http_server = refl
migrates_first-main_of consumer = refl
migrates_first-main_of background_rabbit = refl
migrates_first-main_of cron = refl
migrates_first-main_of grps_server = refl
migrates_first-main_of etcd_balancer = refl
migrates_first-main_of sse_server = refl
migrates_first-main_of websocket_server = refl
migrates_first-main_of custom_gc = refl
