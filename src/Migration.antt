-- ===== src/Migration.antt =====
-- pkg/migrations_rabbit_mq.go, pkg/migrations_custom.go and rabbit_migrations/: the migration of the
-- RabbitMQ cluster, which is guarded by a lock in redis and by a row in postgres. What redis, postgres
-- and the brokers answer is a parameter, `Answers`; `World` is what the program has made of them.
pub mod Once
pub mod Brokers
pub mod First
pub mod Goose
mod Examples
use service_template.Base.{
  ℕ, ◌==◌, Bool, true, false, not, ◌||◌, String, str_eq, Option, none, some, List, [], ◌∷◌, ◌++◌,
  if◌then◌else◌,
}

-- A call on the channel of a broker.
pub data Operation : Type 0 where
  queue_declare : (name : String) → Operation
  exchange_declare : (name kind : String) → Operation
  queue_bind : (name key exchange : String) → Operation

-- A row of the table rabbit_migrations, which is applied.
pub record Row : Type 0 where
  pub version_id : ℕ
  pub description : String

-- The rows, what each broker has done, by its connection string, and the locks that are held.
pub record World : Type 0 where
  pub rows : List Row
  pub brokers : String → List Operation
  pub locks : List String

-- The answer of `Obtain`.
pub data Obtain : Type 0 where
  obtained : Obtain
  not_obtained : Obtain
  obtain_error : Obtain

-- What is answered in one call of `MigrateRabbitMq`; a `_fails` is an error.
pub record Answers : Type 0 where
  pub obtain : Obtain
  pub dialect_fails : Bool
  pub dial_fails : String → Bool
  pub exists_fails : Bool
  pub channel_fails : String → Bool
  pub operation_fails : String → Operation → Bool
  pub set_fails : Bool
  pub release_fails : Bool

-- The calls of `Up202412170001`, in order.
abbrev pub operations : List Operation
operations =
    queue_declare "my_queue"
    ∷ exchange_declare "my_events" "direct"
    ∷ queue_bind "my_queue" "my_queue" "my_events"
    ∷ queue_declare "test_queue"
    ∷ exchange_declare "events" "direct"
    ∷ queue_bind "test_queue" "test_queue" "events"
    ∷ []

-- The calls up to the first that fails: whether none does, and what the broker has done then.
unfoldable pub run_operations :
    (Operation → Bool) → List Operation → List Operation → Bool × List Operation
run_operations fails [] done = (true, done)
run_operations fails (o ∷ os) done =
    let rest = run_operations fails os (done ++ o ∷ []) in if fails o then (false, done) else rest

-- `Up202412170001`: the description, "" with an error.
unfoldable pub up_202412170001 : (Operation → Bool) → List Operation → String × List Operation
up_202412170001 fails done =
    let ran = run_operations fails operations done in
    (if ran.0 then "Create RabbitMQ queue" else "", ran.1)

-- `brokers` with what the broker of the connection has done.
unfoldable pub set_broker :
    String → List Operation → (String → List Operation) → String → List Operation
set_broker conn done brokers c = if str_eq c conn then done else brokers c

-- The loop of `applyCustom` over the connections: the last description, and the brokers; `none` where
-- a channel cannot be opened, which ends the program.
unfoldable pub migrate_brokers :
    Answers
    → List String
    → String
    → (String → List Operation)
    → Option String × (String → List Operation)
migrate_brokers a [] description brokers = (some description, brokers)
migrate_brokers a (conn ∷ conns) description brokers =
    let up = up_202412170001 (a.operation_fails conn) (brokers conn) in
    let rest = migrate_brokers a conns up.0 (set_broker conn up.1 brokers) in
    if a.channel_fails conn then (none, brokers) else rest

-- The query of `exists`.
unfoldable pub has_row : ℕ → List Row → Bool
has_row version [] = false
has_row version (r ∷ rows) = (r.version_id == version) || has_row version rows

-- `exists`, which answers false with an error.
unfoldable pub exists : Answers → ℕ → World → Bool
exists a version w = if a.exists_fails then false else has_row version w.rows

-- The statement of `set`.
unfoldable pub set : Answers → ℕ → String → World → World
set a version description w =
    if a.set_fails || has_row version w.rows
    then w
    else record w { rows = record { version_id = version; description = description } ∷ w.rows }

-- How a call ends: `exit` is `Fatal`, which runs no deferred call; `nil` and `done` are what is returned.
pub data Ending : Type 0 where
  exit : Ending
  returned_nil : Ending
  done : Ending

unfoldable pub apply_custom : Answers → ℕ → List String → World → Ending × World
apply_custom a version conns w =
    let migrated = migrate_brokers a conns "" w.brokers in
    if exists a version w then (done, w) else elim migrated.0 [
      | none ↦ (exit, record w { brokers = migrated.1 })
      | some description ↦ (done, set a version description (record w { brokers = migrated.1 }))
    ]

abbrev pub rabbit_mq_version_202412170001 : ℕ
rabbit_mq_version_202412170001 = 202412170001

-- The loop of `setupRabbitMQ` over the connection strings: whether each can be dialled.
unfoldable pub dial_all : Answers → List String → Bool
dial_all a [] = true
dial_all a (conn ∷ conns) = if a.dial_fails conn then false else dial_all a conns

-- `setupRabbitMQ`, with the `Fatal` for its error.
unfoldable pub setup_rabbit_mq : Answers → List String → World → Ending × World
setup_rabbit_mq a conns w =
    if dial_all a conns then apply_custom a rabbit_mq_version_202412170001 conns w else (exit, w)

-- `lock.Release`, which is deferred, with the locks that it leaves; `Fatal` leaves the lock to its
-- time limit.
unfoldable pub release : List String → Ending × World → Ending × World
release locks r = elim r.0 [
  | exit ↦ r
  | returned_nil ↦ (returned_nil, record (r.1) { locks = locks })
  | done ↦ (done, record (r.1) { locks = locks })
]

-- `MigrateRabbitMq` from the answer of `Obtain` on.
unfoldable pub with_lock : Obtain → Answers → String → List String → World → Ending × World
with_lock not_obtained a lock conns w = (returned_nil, w)
with_lock obtain_error a lock conns w = (returned_nil, w)
with_lock obtained a lock conns w =
    let held = record w { locks = lock ∷ w.locks } in
    if a.dialect_fails
    then (exit, held)
    else release (if a.release_fails then held.locks else w.locks) (setup_rabbit_mq a conns held)

unfoldable pub migrate_rabbit_mq : Answers → String → List String → World → Ending × World
migrate_rabbit_mq a lock conns w = with_lock a.obtain a lock conns w
