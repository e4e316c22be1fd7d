-- ===== src/Container/Builders.antt =====
-- The builders of container/dig.go, each with its calls of `container.Provide` in order, and what the
-- programs of cmd/ ask their container for.
use service_template.Base.{false, List, [], ◌∷◌, String}
use service_template.Container.Keys.{
  Key, logger, config, postgres_repository, etcd_client_service, srv_repository, srv, serializer,
  redis_client, elastic_facade, migrations, prometheus, handlers, rabbit_conn, my_service,
  my_service2, redis_repository, cron, cron_service, rabbit_mq, consumer_rabbit_service,
  publisher_zero, publisher_first,
}
use service_template.Container.{Setting, text, number, flag, Step, must, attempt}

-- The options of the redis client, which every builder gives it; the timeouts are in seconds.
unfoldable pub redis_options : List (String × Setting)
redis_options =
    ("Addr", text "127.0.0.1:6379")
    ∷ ("Username", text "myuser")
    ∷ ("Password", text "mypassword")
    ∷ ("DB", number 1)
    ∷ ("DialTimeout", number 5)
    ∷ ("ReadTimeout", number 3)
    ∷ ("WriteTimeout", number 3)
    ∷ ("PoolSize", number 10)
    ∷ ("MinIdleConns", number 2)
    ∷ []

-- `BuildContainerForHttpServer`
unfoldable pub http_server : List Step
http_server =
    must (record { output = logger; inputs = []; settings = [] })
    ∷ must (record { output = config; inputs = []; settings = [] })
    ∷ must (record {
      output = postgres_repository;
      inputs = [];
      settings = ("sslmode", text "disable") ∷ [];
    })
    ∷ must (record {
      output = etcd_client_service;
      inputs = [];
      settings =
          ("address", text "http://localhost:2379")
          ∷ ("username", text "admin")
          ∷ ("password", text "adminpassword")
          ∷ ("protocol", text "http")
          ∷ ("service", text "my-service")
          ∷ [];
    })
    ∷ must (record { output = srv_repository; inputs = []; settings = [] })
    ∷ must (record { output = srv; inputs = []; settings = [] })
    ∷ must (record { output = serializer; inputs = []; settings = [] })
    ∷ must (record { output = redis_client; inputs = []; settings = redis_options })
    ∷ must (record {
      output = elastic_facade;
      inputs = [];
      settings =
          ("address", text "http://localhost:9200")
          ∷ ("username", text "elastic")
          ∷ ("password", text "elasticpassword")
          ∷ [];
    })
    ∷ must (record {
      output = migrations;
      inputs = postgres_repository ∷ logger ∷ redis_client ∷ [];
      settings = [];
    })
    ∷ must (record { output = prometheus; inputs = []; settings = [] })
    ∷ must (record {
      output = handlers;
      inputs = prometheus ∷ postgres_repository ∷ etcd_client_service ∷ serializer ∷ [];
      settings = [];
    })
    ∷ []

-- `BuildContainerForGrpcServer`
unfoldable pub grpc_server : List Step
grpc_server =
    must (record { output = logger; inputs = []; settings = [] })
    ∷ must (record { output = config; inputs = []; settings = [] })
    ∷ must (record {
      output = postgres_repository;
      inputs = [];
      settings = ("sslmode", text "disable") ∷ [];
    })
    ∷ must (record { output = rabbit_conn; inputs = []; settings = ("shuffle", flag false) ∷ [] })
    ∷ must (record { output = redis_client; inputs = []; settings = redis_options })
    ∷ must (record { output = srv; inputs = []; settings = [] })
    ∷ must (record { output = serializer; inputs = []; settings = [] })
    ∷ must (record {
      output = migrations;
      inputs = postgres_repository ∷ logger ∷ redis_client ∷ [];
      settings = [];
    })
    ∷ must (record { output = my_service; inputs = postgres_repository ∷ srv ∷ []; settings = [] })
    ∷ must (record { output = my_service2; inputs = postgres_repository ∷ srv ∷ []; settings = [] })
    ∷ []

-- `BuildContainerForCron`: the error of the providers of the cron and of its service is not looked at.
unfoldable pub cron_program : List Step
cron_program =
    must (record { output = logger; inputs = []; settings = [] })
    ∷ must (record { output = config; inputs = []; settings = [] })
    ∷ must (record {
      output = postgres_repository;
      inputs = [];
      settings = ("sslmode", text "disable") ∷ [];
    })
    ∷ must (record { output = rabbit_conn; inputs = []; settings = ("shuffle", flag false) ∷ [] })
    ∷ must (record { output = redis_client; inputs = []; settings = redis_options })
    ∷ must (record { output = redis_repository; inputs = redis_client ∷ []; settings = [] })
    ∷ attempt (record { output = cron; inputs = redis_client ∷ logger ∷ []; settings = [] })
    ∷ attempt (record {
      output = cron_service;
      inputs = redis_client ∷ cron ∷ redis_repository ∷ [];
      settings = [];
    })
    ∷ must (record { output = srv; inputs = []; settings = [] })
    ∷ must (record { output = serializer; inputs = []; settings = [] })
    ∷ must (record {
      output = migrations;
      inputs = postgres_repository ∷ logger ∷ redis_client ∷ [];
      settings = [];
    })
    ∷ []

-- `BuildContainerForConsumers`
unfoldable pub consumers : List Step
consumers =
    must (record { output = logger; inputs = []; settings = [] })
    ∷ must (record { output = config; inputs = []; settings = [] })
    ∷ must (record {
      output = postgres_repository;
      inputs = [];
      settings = ("sslmode", text "disable") ∷ [];
    })
    ∷ must (record { output = rabbit_conn; inputs = []; settings = ("shuffle", flag false) ∷ [] })
    ∷ must (record { output = rabbit_mq; inputs = []; settings = [] })
    ∷ must (record {
      output = consumer_rabbit_service;
      inputs = postgres_repository ∷ [];
      settings = [];
    })
    ∷ must (record {
      output = publisher_zero;
      inputs = rabbit_conn ∷ consumer_rabbit_service ∷ rabbit_mq ∷ [];
      settings = ("exchange", text "events") ∷ [];
    })
    ∷ must (record {
      output = publisher_first;
      inputs = rabbit_conn ∷ consumer_rabbit_service ∷ rabbit_mq ∷ [];
      settings = ("exchange", text "my_events") ∷ [];
    })
    ∷ must (record { output = redis_client; inputs = []; settings = redis_options })
    ∷ must (record { output = srv; inputs = []; settings = [] })
    ∷ must (record { output = serializer; inputs = []; settings = [] })
    ∷ must (record {
      output = migrations;
      inputs = postgres_repository ∷ logger ∷ redis_client ∷ [];
      settings = [];
    })
    ∷ []

-- `BuildContainerForBackgroundRabbitMq`
unfoldable pub background_rabbit_mq : List Step
background_rabbit_mq =
    must (record { output = logger; inputs = []; settings = [] })
    ∷ must (record { output = config; inputs = []; settings = [] })
    ∷ must (record {
      output = postgres_repository;
      inputs = [];
      settings = ("sslmode", text "disable") ∷ [];
    })
    ∷ must (record { output = rabbit_conn; inputs = []; settings = ("shuffle", flag false) ∷ [] })
    ∷ must (record { output = rabbit_mq; inputs = []; settings = [] })
    ∷ must (record {
      output = consumer_rabbit_service;
      inputs = postgres_repository ∷ [];
      settings = [];
    })
    ∷ must (record {
      output = publisher_zero;
      inputs = rabbit_conn ∷ consumer_rabbit_service ∷ rabbit_mq ∷ [];
      settings = ("exchange", text "events") ∷ [];
    })
    ∷ must (record {
      output = publisher_first;
      inputs = rabbit_conn ∷ consumer_rabbit_service ∷ rabbit_mq ∷ [];
      settings = ("exchange", text "my_events") ∷ [];
    })
    ∷ must (record { output = redis_client; inputs = []; settings = redis_options })
    ∷ must (record { output = srv; inputs = []; settings = [] })
    ∷ must (record { output = serializer; inputs = []; settings = [] })
    ∷ must (record {
      output = migrations;
      inputs = postgres_repository ∷ logger ∷ redis_client ∷ [];
      settings = [];
    })
    ∷ []

-- The parameters of the function that cmd/http_server/main.go invokes.
unfoldable pub http_server_arguments : List Key
http_server_arguments =
    postgres_repository ∷ etcd_client_service ∷ srv_repository ∷ srv ∷ elastic_facade ∷ redis_client
    ∷ migrations ∷ prometheus ∷ handlers ∷ []

-- The same for cmd/grps_server/main.go
unfoldable pub grpc_server_arguments : List Key
grpc_server_arguments =
    postgres_repository ∷ rabbit_conn ∷ redis_client ∷ migrations ∷ my_service ∷ my_service2 ∷ []

-- The same for cmd/cron/main.go
unfoldable pub cron_arguments : List Key
cron_arguments =
    postgres_repository ∷ rabbit_conn ∷ redis_repository ∷ redis_client ∷ cron ∷ cron_service
    ∷ migrations ∷ []

-- `ConsumerDependencies`, which cmd/consumer/main.go invokes
unfoldable pub consumer_dependencies : List Key
consumer_dependencies =
    postgres_repository ∷ rabbit_conn ∷ consumer_rabbit_service ∷ redis_client ∷ publisher_zero
    ∷ publisher_first ∷ rabbit_mq ∷ migrations ∷ []

-- `RabbitBackgroundDependencies`, which cmd/background_rabbit/main.go invokes
unfoldable pub rabbit_background_dependencies : List Key
rabbit_background_dependencies =
    postgres_repository ∷ rabbit_conn ∷ consumer_rabbit_service ∷ redis_client ∷ publisher_zero
    ∷ publisher_first ∷ rabbit_mq ∷ migrations ∷ []

-- A program: the steps of its builder, and what it asks the container for.
pub data Program : Type 0 where
  http_server_program : Program
  grpc_server_program : Program
  cron_job_program : Program
  consumer_program : Program
  background_rabbit_program : Program

unfoldable pub steps_of : Program → List Step
steps_of http_server_program = http_server
steps_of grpc_server_program = grpc_server
steps_of cron_job_program = cron_program
steps_of consumer_program = consumers
steps_of background_rabbit_program = background_rabbit_mq

unfoldable pub arguments_of : Program → List Key
arguments_of http_server_program = http_server_arguments
arguments_of grpc_server_program = grpc_server_arguments
arguments_of cron_job_program = cron_arguments
arguments_of consumer_program = consumer_dependencies
arguments_of background_rabbit_program = rabbit_background_dependencies
