-- ===== src/Migration/Once.antt =====
-- `MigrateRabbitMq` is done once.
use service_template.Base.{
  if◌then◌else◌, ℕ, ◌≡◌, refl, ◌==◌, true, false, String, Option, none, some, List, ◌∷◌, inl, inr,
  Bool-cases, if-branches, arith,
}
use service_template.Migration.{
  World, Obtain, obtained, not_obtained, obtain_error, Answers, migrate_brokers, has_row, exists,
  set, Ending, exit, returned_nil, done, apply_custom, rabbit_mq_version_202412170001, dial_all,
  setup_rabbit_mq, release, with_lock, migrate_rabbit_mq,
}

-- The brokers and the rows are those of the other world.
pub record Same (w w' : World) : Type 0 where
  pub rows : w'.rows ≡ w.rows
  pub brokers : w'.brokers ≡ w.brokers

release-Same :
    (locks : List String) (w : World) (r : Ending × World) → Same w r.1 → Same w (release locks r).1
unfolding release
release-Same locks w (exit, v) h = h
release-Same locks w (returned_nil, v) h = record { rows = h.rows; brokers = h.brokers }
release-Same locks w (done, v) h = record { rows = h.rows; brokers = h.brokers }

apply_custom-recorded :
    (a : Answers) (version : ℕ) (conns : List String) (w : World)
    → a.exists_fails ≡ false
    → has_row version w.rows ≡ true
    → apply_custom a version conns w ≡ (done, w)
unfolding apply_custom exists
apply_custom-recorded a version conns w ok row = rw (ok, row)

setup-recorded :
    (a : Answers) (conns : List String) (w : World)
    → a.exists_fails ≡ false
    → has_row rabbit_mq_version_202412170001 w.rows ≡ true
    → Same w (setup_rabbit_mq a conns w).1
unfolding setup_rabbit_mq
setup-recorded a conns w ok row = elim (Bool-cases (dial_all a conns)) [
  | inl up ↦
      rw (up, apply_custom-recorded a rabbit_mq_version_202412170001 conns w ok row)
        (record { rows = refl; brokers = refl })
  | inr down ↦ rw down (record { rows = refl; brokers = refl })
]

with_lock-recorded :
    (o : Obtain) (a : Answers) (lock : String) (conns : List String) (w : World)
    → a.exists_fails ≡ false
    → has_row rabbit_mq_version_202412170001 w.rows ≡ true
    → Same w (with_lock o a lock conns w).1
unfolding with_lock
with_lock-recorded not_obtained a lock conns w ok row = record { rows = refl; brokers = refl }
with_lock-recorded obtain_error a lock conns w ok row = record { rows = refl; brokers = refl }
with_lock-recorded obtained a lock conns w ok row =
    let held = record w { locks = lock ∷ w.locks } in
    let s = setup-recorded a conns held ok row in
    let r =
      release-Same (if a.release_fails then held.locks else w.locks) held
        (setup_rabbit_mq a conns held) s in
    if-branches (λ (t : Ending × World). Same w t.1) a.dialect_fails
      (λ bad. record { rows = refl; brokers = refl })
      (λ good. record { rows = r.rows; brokers = r.brokers })

-- Once the migration is recorded, a call leaves every broker and the table as they are, whatever else
-- fails in it, so long as the table can be read.
migrate_rabbit_mq-recorded :
    (a : Answers) (lock : String) (conns : List String) (w : World)
    → a.exists_fails ≡ false
    → has_row rabbit_mq_version_202412170001 w.rows ≡ true
    → Same w (migrate_rabbit_mq a lock conns w).1
unfolding migrate_rabbit_mq
migrate_rabbit_mq-recorded a lock conns w ok row = with_lock-recorded a.obtain a lock conns w ok row

has_row-set :
    (a : Answers) (version : ℕ) (description : String) (w : World)
    → a.set_fails ≡ false
    → has_row version (set a version description w).rows ≡ true
unfolding set has_row
has_row-set a version description w ok = elim (Bool-cases (has_row version w.rows)) [
  | inl here ↦ rw (ok, here, set) here
  | inr away ↦ let same : (version == version) ≡ true = ground arith in rw (ok, away, set, same)
]

-- The row is there at the end of a call that returns its receiver.
abbrev Recorded : Ending × World → Type 0
Recorded r = r.0 ≡ done → has_row rabbit_mq_version_202412170001 r.1.rows ≡ true

exists-has_row :
    (a : Answers) (version : ℕ) (w : World)
    → exists a version w ≡ true
    → has_row version w.rows ≡ true
unfolding exists
exists-has_row a version w =
    if-branches (λ b. b ≡ true → has_row version w.rows ≡ true) a.exists_fails
      (λ bad e. absurd (cc)) (λ good e. e)

after_brokers :
    (a : Answers) (description : Option String) (w : World)
    → a.set_fails ≡ false
    → Recorded (elim description as (λ o. Ending × World) [
      | none ↦ (exit, w)
      | some d ↦ (done, set a rabbit_mq_version_202412170001 d w)
    ])
after_brokers a none w ok e = absurd (cc)
after_brokers a (some d) w ok e = has_row-set a rabbit_mq_version_202412170001 d w ok

apply_custom-Recorded :
    (a : Answers) (conns : List String) (w : World)
    → a.set_fails ≡ false
    → Recorded (apply_custom a rabbit_mq_version_202412170001 conns w)
unfolding apply_custom
apply_custom-Recorded a conns w ok =
    if-branches Recorded (exists a rabbit_mq_version_202412170001 w)
      (λ here e. exists-has_row a rabbit_mq_version_202412170001 w here)
      (λ away.
        after_brokers a (migrate_brokers a conns "" w.brokers).0
          (record w { brokers = (migrate_brokers a conns "" w.brokers).1 }) ok)

setup-Recorded :
    (a : Answers) (conns : List String) (w : World)
    → a.set_fails ≡ false
    → Recorded (setup_rabbit_mq a conns w)
unfolding setup_rabbit_mq
setup-Recorded a conns w ok =
    if-branches Recorded (dial_all a conns) (λ up. apply_custom-Recorded a conns w ok)
      (λ down e. absurd (cc))

release-Recorded :
    (locks : List String) (r : Ending × World) → Recorded r → Recorded (release locks r)
unfolding release
release-Recorded locks (exit, v) h e = absurd (cc)
release-Recorded locks (returned_nil, v) h e = absurd (cc)
release-Recorded locks (done, v) h e = h e

with_lock-Recorded :
    (o : Obtain) (a : Answers) (lock : String) (conns : List String) (w : World)
    → a.set_fails ≡ false
    → Recorded (with_lock o a lock conns w)
unfolding with_lock
with_lock-Recorded not_obtained a lock conns w ok e = absurd (cc)
with_lock-Recorded obtain_error a lock conns w ok e = absurd (cc)
with_lock-Recorded obtained a lock conns w ok e =
    let held = record w { locks = lock ∷ w.locks } in
    if-branches Recorded a.dialect_fails (λ bad e. absurd (cc))
      (λ good.
        release-Recorded (if a.release_fails then held.locks else w.locks)
          (setup_rabbit_mq a conns held) (setup-Recorded a conns held ok))
      e

migrate_rabbit_mq-Recorded :
    (a : Answers) (lock : String) (conns : List String) (w : World)
    → a.set_fails ≡ false
    → Recorded (migrate_rabbit_mq a lock conns w)
unfolding migrate_rabbit_mq
migrate_rabbit_mq-Recorded a lock conns w ok = with_lock-Recorded a.obtain a lock conns w ok

-- A call that returns its receiver has recorded the migration, if the table took the row, even where a
-- broker refused a part of it. No later call, whatever else fails in it, changes a broker or the table,
-- so long as the table can be read.
pub migrate_rabbit_mq-again :
    (a a' : Answers) (lock : String) (conns conns' : List String) (w : World)
    → a.set_fails ≡ false
    → (migrate_rabbit_mq a lock conns w).0 ≡ done
    → a'.exists_fails ≡ false
    → (has_row rabbit_mq_version_202412170001 (migrate_rabbit_mq a lock conns w).1.rows ≡ true)
      × Same
          (migrate_rabbit_mq a lock conns w).1
          (migrate_rabbit_mq a' lock conns' (migrate_rabbit_mq a lock conns w).1).1
migrate_rabbit_mq-again a a' lock conns conns' w ok ends ok' =
    let row = migrate_rabbit_mq-Recorded a lock conns w ok ends in
    (row, migrate_rabbit_mq-recorded a' lock conns' (migrate_rabbit_mq a lock conns w).1 ok' row)
