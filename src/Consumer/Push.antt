-- ===== src/Consumer/Push.antt =====
-- cmd/background_rabbit/main.go: `push`, which publishes a numbered message at each tick.
use service_template.Base.{
  ℕ, suc, Bool, true, false, String, List, [], ◌∷◌, Option, none, some, ◌≡◌, refl, ap,
}

-- What a turn of the loop receives, with the error of the publisher, if there is one.
pub data PushTurn : Type 0 where
  tick : (error : Option String) → PushTurn
  father_done : PushTurn

-- The numbers of the messages that were published, the errors that were logged, and whether the loop
-- has ended.
pub record Pushed : Type 0 where
  pub numbers : List ℕ
  pub errors : List String
  pub stopped : Bool

unfoldable pub log_error : Option String → List String → List String
log_error none errors = errors
log_error (some e) errors = e ∷ errors

-- `push` from the number `i` on.
unfoldable pub push : ℕ → List PushTurn → Pushed
push i [] = record { numbers = []; errors = []; stopped = false }
push i (father_done ∷ turns) = record { numbers = []; errors = []; stopped = true }
push i (tick error ∷ turns) =
    let rest = push (suc i) turns in
    record {
      numbers = i ∷ rest.numbers;
      errors = log_error error rest.errors;
      stopped = rest.stopped;
    }

abbrev pub ticks : List (Option String) → List PushTurn
ticks [] = []
ticks (e ∷ errors) = tick e ∷ ticks errors

abbrev pub count_from : ℕ → List (Option String) → List ℕ
count_from i [] = []
count_from i (e ∷ errors) = i ∷ count_from (suc i) errors

-- Each tick has a message of its own number, whether or not the ones before were published.
pub push-count_from :
    (i : ℕ) (errors : List (Option String)) → (push i (ticks errors)).numbers ≡ count_from i errors
unfolding push
push-count_from i [] = refl
push-count_from i (e ∷ errors) = ap (λ ns. i ∷ ns) (push-count_from (suc i) errors)
