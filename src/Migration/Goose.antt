-- ===== src/Migration/Goose.antt =====
-- pkg/migrations_sql.go: `Migrate`, which runs the SQL migrations of goose under a lock in redis. What goose
-- makes of the database is a parameter.
use service_template.Base.{
  Bool, false, String, List, ◌∷◌, if◌then◌else◌, ◌≡◌, if-false, ◌∙◌, sym, ap,
}
use service_template.Migration.{
  Obtain, obtained, not_obtained, obtain_error, Ending, exit, returned_nil, done,
}

-- The database and the locks that are held.
pub record Store (D : Type 0) : Type 0 where
  pub db : D
  pub locks : List String

module _ {D : Type 0} (up : D → D × Bool) where
  -- `goose.Up`, with the `Fatal` for its error, and the release behind it, which is deferred; `Fatal`
  -- leaves the lock to its time limit.
  unfoldable pub up_and_release : (release_fails : Bool) → String → Store D → Ending × Store D
  up_and_release release_fails table s =
      let migrated = up s.db in
      if migrated.1 then (exit, record { db = migrated.0; locks = table ∷ s.locks }) else (
        done,
        record { db = migrated.0; locks = if release_fails then table ∷ s.locks else s.locks },
      )

  unfoldable pub migrate :
      Obtain → (dialect_fails release_fails : Bool) → String → Store D → Ending × Store D
  migrate not_obtained dialect_fails release_fails table s = (returned_nil, s)
  migrate obtain_error dialect_fails release_fails table s = (returned_nil, s)
  migrate obtained dialect_fails release_fails table s =
      let ran = up_and_release release_fails table s in
      if dialect_fails then (exit, record s { locks = table ∷ s.locks }) else ran

  migrate-done :
      (table : String) (s : Store D)
      → (up s.db).1 ≡ false
      → migrate obtained false false table s ≡ (done, record { db = (up s.db).0; locks = s.locks })
  unfolding migrate up_and_release
  migrate-done table s h = if-false (up s.db).1 _ h

  -- A second call finds nothing to do where goose does nothing on a database that it has migrated: with
  -- both locks obtained and released and no failures, the store is that of one call.
  pub migrate-again :
      (table : String) (s : Store D)
      → (up s.db).1 ≡ false
      → up (up s.db).0 ≡ ((up s.db).0, false)
      → let once = migrate obtained false false table s in
        (once ≡ (done, record { db = (up s.db).0; locks = s.locks }))
        × (migrate obtained false false table once.1 ≡ once)
  migrate-again table s first second =
      let once = migrate-done table s first in
      let s1 : Store D = record { db = (up s.db).0; locks = s.locks } in
      (
        once,
        ap (λ (x : Ending × Store D). migrate obtained false false table x.1) once
            ∙ migrate-done table s1 (ap (λ (x : D × Bool). x.1) second)
            ∙ ap (λ (x : D × Bool). (done, record { db = x.0; locks = s.locks })) second
            ∙ sym once,
      )
