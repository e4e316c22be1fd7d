-- ===== src/App/Signals.antt =====
-- application/application.go: `Start`, `RegisterRecovers` and `Run`, as steps of the goroutine that waits for a
-- signal, of the main function and of the system. The channel `sig` has room for one signal.
pub mod Recovering
mod Examples
use service_template.Base.{Bool, true, false, ◌≡◌}

-- Where the goroutine of `Start` stands: at the channel, at `cancel`, or at the deferred `signal.Stop`.
pub data Listener : Type 0 where
  listening : Listener
  received : Listener
  cancelled : Listener
  gone : Listener

-- Where the main function stands: before `Run`, in it, at the sending of `RegisterRecovers` after a panic,
-- or at `Stop`.
pub data Main : Type 0 where
  working : Main
  running : Main
  recovering : Main
  stopping : Main

pub record Signals : Type 0 where
  pub listener : Listener
  pub main : Main
  pub pending : Bool
  pub notified : Bool
  pub context_done : Bool

-- `Start` has been called.
unfoldable pub started : Signals
started = record {
  listener = listening;
  main = working;
  pending = false;
  notified = true;
  context_done = false;
}

-- A step: a signal of the system, which is dropped where the channel is full; the goroutine's three
-- steps; and those of the main function.
pub data SignalStep : Signals → Signals → Type 0 where
  signal_kept :
      (s : Signals)
      → s.notified ≡ true
      → s.pending ≡ false
      → SignalStep s (record s { pending = true })
  signal_dropped : (s : Signals) → s.notified ≡ true → s.pending ≡ true → SignalStep s s
  receive :
      (s : Signals)
      → s.listener ≡ listening
      → s.pending ≡ true
      → SignalStep s (record s { listener = received; pending = false })
  cancel :
      (s : Signals)
      → s.listener ≡ received
      → SignalStep s (record s { listener = cancelled; context_done = true })
  stop_notify :
      (s : Signals)
      → s.listener ≡ cancelled
      → SignalStep s (record s { listener = gone; notified = false })
  run : (s : Signals) → s.main ≡ working → SignalStep s (record s { main = running })
  panic : (s : Signals) → s.main ≡ working → SignalStep s (record s { main = recovering })
  recover_sends :
      (s : Signals)
      → s.main ≡ recovering
      → s.pending ≡ false
      → SignalStep s (record s { main = stopping; pending = true })
  run_returns :
      (s : Signals)
      → s.main ≡ running
      → s.context_done ≡ true
      → SignalStep s (record s { main = stopping })

-- Any number of steps.
pub data Reaches : Signals → Signals → Type 0 where
  here : {s : Signals} → Reaches s s
  then_step : {s t u : Signals} → Reaches s t → SignalStep t u → Reaches s u
