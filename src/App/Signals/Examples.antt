-- ===== src/App/Signals/Examples.antt =====
-- application/application.go: a second signal between `cancel` and `signal.Stop`, then a panic.
use service_template.Base.{true, false, ◌≡◌, refl}
use service_template.App.Signals.{gone, recovering, Signals, here}
use service_template.App.Signals.Recovering.{Blocked-Reaches}

abbrev stuck : Signals
stuck = record {
  listener = gone;
  main = recovering;
  pending = true;
  notified = false;
  context_done = true;
}

Blocked-Reaches_example : stuck ≡ stuck
Blocked-Reaches_example =
    Blocked-Reaches stuck stuck (record { at_send = refl; full = refl; nobody = refl; deaf = refl })
      here
