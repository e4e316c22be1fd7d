-- ===== src/App/Signals/Recovering.antt =====
-- application/application.go: what `Run` waits for, and a panic after a second signal.
use service_template.Base.{Bool, true, false, ◌≡◌, refl, sym, ap, ◌∙◌}
use mathlib.Core.Bool.{true≢false}
use mathlib.Core.Path.{subst}
use service_template.App.Signals.{
  Listener, listening, received, cancelled, gone, Main, recovering, Signals, SignalStep,
  signal_kept, signal_dropped, receive, cancel, stop_notify, run, panic, recover_sends, run_returns,
  Reaches, here, then_step,
}

-- The goroutine has called `cancel`.
abbrev pub has_cancelled : Listener → Bool
has_cancelled listening = false
has_cancelled received = false
has_cancelled cancelled = true
has_cancelled gone = true

-- Signals reach the channel.
abbrev pub hears : Listener → Bool
hears listening = true
hears received = true
hears cancelled = true
hears gone = false

-- What holds between the steps.
pub record Consistent (s : Signals) : Type 0 where
  pub done : s.context_done ≡ has_cancelled s.listener
  pub heard : s.notified ≡ hears s.listener

-- The main function waits to send after a panic, the channel is full and nobody receives.
pub record Blocked (s : Signals) : Type 0 where
  pub at_send : s.main ≡ recovering
  pub full : s.pending ≡ true
  pub nobody : s.listener ≡ gone
  pub deaf : s.notified ≡ false

abbrev is_recovering : Main → Bool
is_recovering recovering = true
is_recovering _ = false

abbrev is_gone : Listener → Bool
is_gone gone = true
is_gone _ = false

Blocked-step : (s t : Signals) → Blocked s → SignalStep s t → s ≡ t
Blocked-step _ _ b (signal_kept s n p) = absurd (true≢false (sym n ∙ b.deaf))
Blocked-step _ _ b (signal_dropped s n p) = refl
Blocked-step _ _ b (receive s l p) = absurd (true≢false (ap is_gone (sym b.nobody ∙ l)))
Blocked-step _ _ b (cancel s l) = absurd (true≢false (ap is_gone (sym b.nobody ∙ l)))
Blocked-step _ _ b (stop_notify s l) = absurd (true≢false (ap is_gone (sym b.nobody ∙ l)))
Blocked-step _ _ b (run s m) = absurd (true≢false (ap is_recovering (sym b.at_send ∙ m)))
Blocked-step _ _ b (panic s m) = absurd (true≢false (ap is_recovering (sym b.at_send ∙ m)))
Blocked-step _ _ b (recover_sends s m p) = absurd (true≢false (sym b.full ∙ p))
Blocked-step _ _ b (run_returns s m d) = absurd (true≢false (ap is_recovering (sym b.at_send ∙ m)))

-- When the main function recovers from a panic after the goroutine is gone, while a second signal fills
-- the channel, nothing changes any more: the shutdown functions are never run.
pub Blocked-Reaches : (s t : Signals) → Blocked s → Reaches s t → s ≡ t
Blocked-Reaches s _ b here = refl
Blocked-Reaches s _ b (then_step {t} {u} r step) =
    let same = Blocked-Reaches s t b r in same ∙ Blocked-step t u (subst Blocked same b) step
