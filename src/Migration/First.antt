-- ===== src/Migration/First.antt =====
-- The first call of `MigrateRabbitMq` as a whole.
use service_template.Base.{
  ℕ, ◌≡◌, refl, ◌∙◌, ap, true, false, ◌||◌, String, Option, none, some, List, ◌∷◌, ◌++◌,
  if-branches, if-true, if-false,
}
use service_template.Migration.{
  Operation, World, obtained, Answers, migrate_brokers, has_row, exists, set, Ending, exit, done,
  apply_custom, rabbit_mq_version_202412170001, dial_all, setup_rabbit_mq, release, with_lock,
  migrate_rabbit_mq,
}
use service_template.Migration.Brokers.{
  added, described, Open, Refusing, Looped, migrate_brokers-Open, migrate_brokers-Refusing,
}

-- Nothing fails but perhaps at the brokers, and the migration is not recorded.
pub record Ready (a : Answers) (conns : List String) (w : World) : Type 0 where
  pub lock : a.obtain ≡ obtained
  pub dialect : a.dialect_fails ≡ false
  pub dialled : dial_all a conns ≡ true
  pub table : a.set_fails ≡ false
  pub unlock : a.release_fails ≡ false
  pub absent : has_row rabbit_mq_version_202412170001 w.rows ≡ false

-- The call is done, with one more row, the lock given back, and the brokers as they are described.
pub record Migrated (w : World) (description : String) (brokers : String → List Operation)
    (r : Ending × World) : Type 0 where
  pub ending : r.0 ≡ done
  pub rows :
      r.1.rows
      ≡ record { version_id = rabbit_mq_version_202412170001; description = description } ∷ w.rows
  pub locks : r.1.locks ≡ w.locks
  pub at : (c : String) → r.1.brokers c ≡ brokers c

exists-absent :
    (a : Answers) (version : ℕ) (w : World)
    → has_row version w.rows ≡ false
    → exists a version w ≡ false
unfolding exists
exists-absent a version w away =
    if-branches (λ b. b ≡ false) a.exists_fails (λ bad. refl) (λ good. away)

set-absent :
    (a : Answers) (version : ℕ) (description : String) (w : World)
    → a.set_fails ≡ false
    → has_row version w.rows ≡ false
    → set a version description w
      ≡ record w { rows = record { version_id = version; description = description } ∷ w.rows }
unfolding set
set-absent a version description w ok away =
    if-false (a.set_fails || has_row version w.rows) _
      (ap (λ b. b || has_row version w.rows) ok ∙ away)

apply_custom-absent :
    (a : Answers) (version : ℕ) (conns : List String) (w : World) (description : String)
    → a.set_fails ≡ false
    → has_row version w.rows ≡ false
    → (migrate_brokers a conns "" w.brokers).0 ≡ some description
    → apply_custom a version conns w ≡ (
      done,
      record w {
        rows = record { version_id = version; description = description } ∷ w.rows;
        brokers = (migrate_brokers a conns "" w.brokers).1;
      },
    )
unfolding apply_custom
apply_custom-absent a version conns w description ok away text =
    if-false (exists a version w) _ (exists-absent a version w away)
    ∙ ap (after (record w { brokers = (migrate_brokers a conns "" w.brokers).1 })) text
    ∙ ap (λ v. (done, v))
        (set-absent a version description
          (record w { brokers = (migrate_brokers a conns "" w.brokers).1 }) ok away)
  where
    after : World → Option String → Ending × World
    after v o = elim o [ none ↦ (exit, v) | some d ↦ (done, set a version d v) ]

setup-absent :
    (a : Answers) (conns : List String) (w : World) (description : String)
    → dial_all a conns ≡ true
    → a.set_fails ≡ false
    → has_row rabbit_mq_version_202412170001 w.rows ≡ false
    → (migrate_brokers a conns "" w.brokers).0 ≡ some description
    → setup_rabbit_mq a conns w ≡ (
      done,
      record w {
        rows =
            record { version_id = rabbit_mq_version_202412170001; description = description }
            ∷ w.rows;
        brokers = (migrate_brokers a conns "" w.brokers).1;
      },
    )
unfolding setup_rabbit_mq
setup-absent a conns w description dialled ok away text =
    if-true (dial_all a conns) _ dialled
    ∙ apply_custom-absent a rabbit_mq_version_202412170001 conns w description ok away text

migrate-Migrated :
    (a : Answers) (lock : String) (conns : List String) (w : World) (description : String)
    (brokers : String → List Operation)
    → Ready a conns w
    → Looped description brokers (migrate_brokers a conns "" w.brokers)
    → Migrated w description brokers (migrate_rabbit_mq a lock conns w)
unfolding migrate_rabbit_mq with_lock release
migrate-Migrated a lock conns w description brokers ready looped =
    let held = record w { locks = lock ∷ w.locks } in
    let setup =
      setup-absent a conns held description ready.dialled ready.table ready.absent looped.text in
    let e =
      ap (λ o. with_lock o a lock conns w) ready.lock
      ∙ if-false a.dialect_fails _ ready.dialect
      ∙ ap (λ ls. release ls (setup_rabbit_mq a conns held))
          (if-false a.release_fails (lock ∷ w.locks) ready.unlock)
      ∙ ap (release w.locks) setup in
    record {
      ending = ap (λ r. r.0) e;
      rows = ap (λ r. r.1.rows) e;
      locks = ap (λ r. r.1.locks) e;
      at = λ c. ap (λ r. r.1.brokers c) e ∙ looped.at c;
    }

-- Where nothing fails, the first call has every broker of the connections declare the queues and the
-- exchanges and bind them, in order and once for each connection to it, leaves the other brokers as
-- they are, records the migration in one row, and gives the lock back.
pub migrate_rabbit_mq-Open :
    (a : Answers) (lock : String) (conns : List String) (w : World)
    → Ready a conns w
    → Open a
    → Migrated w
        (described conns "Create RabbitMQ queue" "")
        (λ c. w.brokers c ++ added c conns)
        (migrate_rabbit_mq a lock conns w)
migrate_rabbit_mq-Open a lock conns w ready opened =
    migrate-Migrated a lock conns w _ _ ready (migrate_brokers-Open a conns "" w.brokers opened)

-- Where every broker refuses even the first operation, the call is done all the same: no broker has
-- changed, and the migration is recorded as applied.
pub migrate_rabbit_mq-Refusing :
    (a : Answers) (lock : String) (conns : List String) (w : World)
    → Ready a conns w
    → Refusing a
    → Migrated w (described conns "" "") w.brokers (migrate_rabbit_mq a lock conns w)
migrate_rabbit_mq-Refusing a lock conns w ready refusing =
    migrate-Migrated a lock conns w _ _ ready
      (migrate_brokers-Refusing a conns "" w.brokers refusing)
