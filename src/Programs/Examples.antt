-- ===== src/Programs/Examples.antt =====
-- cmd/consumer/main.go and cmd/cron/main.go, and the theorems there.
use service_template.Base.{true, false, ◌≡◌, refl, str_eq, if◌then◌else◌}
use service_template.App.{stop, shutdown_all, register_shutdown, insert_behind, int_le}
use service_template.Programs.{
  consumer, cron, consumers_main, main_of, Statement, register_consumer,
}
use service_template.Programs.Lifecycle.{Fate, done, panics}
use service_template.Programs.Order.{is_before, stop_order, migrates_first, migrates_first-main_of}

-- The publisher of `BlankConsumer` is closed while its consumers still run.
publisher_before_consumer : is_before "publisher1" "consumer" (stop_order consumer) ≡ true
unfolding main_of consumers_main stop shutdown_all register_shutdown insert_behind int_le
publisher_before_consumer = refl

migrates_first-main_of_example : migrates_first false (main_of cron) ≡ true
migrates_first-main_of_example = migrates_first-main_of cron

-- The consumer panics where it would register its second consumer.
abbrev failing : Statement → Fate
failing (register_consumer queue exchange) = if str_eq queue "test_queue" then panics else done
failing _ = done
