-- ===== src/Container/Keys.antt =====
-- The types that container/dig.go provides, and the names it gives to the two publishers.
use service_template.Base.{ℕ, Bool, ◌==◌}

pub data Key : Type 0 where
  logger : Key
  config : Key
  postgres_repository : Key
  etcd_client_service : Key
  srv_repository : Key
  srv : Key
  serializer : Key
  redis_client : Key
  elastic_facade : Key
  migrations : Key
  prometheus : Key
  handlers : Key
  rabbit_conn : Key
  my_service : Key
  my_service2 : Key
  redis_repository : Key
  cron : Key
  cron_service : Key
  rabbit_mq : Key
  consumer_rabbit_service : Key
  publisher_zero : Key
  publisher_first : Key

abbrev pub key_number : Key → ℕ
key_number logger = 0
key_number config = 1
key_number postgres_repository = 2
key_number etcd_client_service = 3
key_number srv_repository = 4
key_number srv = 5
key_number serializer = 6
key_number redis_client = 7
key_number elastic_facade = 8
key_number migrations = 9
key_number prometheus = 10
key_number handlers = 11
key_number rabbit_conn = 12
key_number my_service = 13
key_number my_service2 = 14
key_number redis_repository = 15
key_number cron = 16
key_number cron_service = 17
key_number rabbit_mq = 18
key_number consumer_rabbit_service = 19
key_number publisher_zero = 20
key_number publisher_first = 21

-- The same type and name.
abbrev pub key_eq : Key → Key → Bool
key_eq k l = key_number k == key_number l
