-- ===== src/Cron.antt =====
-- internal/cron and pkg/cron.go: the task that a lock in redis guards. What `Obtain` answers is
-- given.
use service_template.Base.{
  Bool, true, false, String, List, ◌∷◌, if◌then◌else◌, Outcome, returned, panicked,
}
use service_template.Migration.{Obtain, obtained, not_obtained, obtain_error}

-- How a call of the scheduled function goes: whether the task ran, and whether the lock was released
-- behind it; a panic of the task skips that.
pub record Ran : Type 0 where
  pub ran : Bool
  pub released : Bool

-- `Lock`, with what the task comes to. An error other than that the lock is taken is not looked at, and
-- leaves no lock to release.
unfoldable pub lock : Obtain → Outcome Bool → Ran
lock not_obtained task = record { ran = false; released = false }
lock obtained (returned v) = record { ran = true; released = true }
lock obtained panicked = record { ran = true; released = false }
lock obtain_error task = record { ran = true; released = false }

-- `AddSchedule`, whose error ends the program; `cmds` are the functions of the schedule.
unfoldable pub add_schedule {ℓ} :
    {C : Type ℓ} (parse_fails : String → Bool) → String → C → List C → Outcome (List C)
add_schedule parse_fails spec cmd cmds =
    if parse_fails spec then panicked else returned (cmd ∷ cmds)
