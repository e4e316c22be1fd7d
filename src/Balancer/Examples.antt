-- ===== src/Balancer/Examples.antt =====
-- A balancer over three backends, of which the second is down, and the theorems there.
use service_template.Base.{
  ℕ, inl, ◌==◌, ◌≡◌, refl, true, false, String, str_eq, Option, none, some, List, [], ◌∷◌, arith,
  if◌then◌else◌,
}
use service_template.Balancer.{
  Fleet, LoadBalancer, new_load_balancer, round_robbin_next_backend, advance, find_next, is_alive,
  find_existing, collect, update_backends, add_backend, run, stop, changed,
}
use service_template.Balancer.Rotation.{Answers, round_robbin_next_backend-Answers, picks}
use service_template.Balancer.Safety.{
  Event, request, update, tick, run_events, IsSound, Survives, run_events-Survives,
}
use service_template.Balancer.Watch.{Follows, run-Follows}

abbrev fleet : Fleet
fleet = record {
  url = λ p. if p == 0 then "http://a" else if p == 1 then "http://b" else "http://c";
  alive = λ p. if p == 1 then false else true;
  fresh = 3;
}

abbrev all_up : Fleet
all_up = record fleet { alive = λ p. true }

abbrev balancer : LoadBalancer
balancer = record { backends = 0 ∷ 1 ∷ 2 ∷ []; current = 1 }

-- The second is down, so the third is next, and then the first.
picks_run : picks 3 balancer fleet ≡ some 2 ∷ some 0 ∷ some 2 ∷ []
unfolding round_robbin_next_backend advance find_next is_alive
picks_run = refl

round_robbin_next_backend-Answers_example : Answers balancer fleet
round_robbin_next_backend-Answers_example =
    round_robbin_next_backend-Answers balancer fleet (omega arith)

-- `url.Parse` on the values of the example.
abbrev parse : String → Option String
parse s = if str_eq s "%" then none else some s

abbrev answered : List (String × String)
answered = ("self", "http://self") ∷ ("k1", "http://c") ∷ ("k2", "%") ∷ ("k3", "http://d") ∷ []

update_run :
    (let after = update_backends parse "self" (some answered) balancer fleet in
      (after.0.backends ≡ 2 ∷ 3 ∷ []) × (after.0.current ≡ 0) × (after.1.url 3 ≡ "http://d"))
unfolding update_backends collect find_existing add_backend
update_run = (refl, refl, refl)

-- Only the second backend answers 200.
abbrev probe : String → Option ℕ
probe url = if str_eq url "http://b" then some 200 else some 503

abbrev events : List Event
events = request ∷ update (some answered) ∷ tick probe (3 ∷ 2 ∷ []) ∷ request ∷ []

run_events-Survives_example :
    Survives (run_events parse "self" events new_load_balancer fleet)
    × IsSound new_load_balancer fleet
run_events-Survives_example =
    run_events-Survives parse "self" events new_load_balancer fleet
      (record { placed = inl refl; below = tt })

-- The watching goroutine gets an answer and an error, and is stopped before the next.
run-Follows_example : Follows parse "self" balancer fleet (some answered) (
    run parse "self" none
      (changed (some answered) ∷ changed none ∷ stop ∷ changed none ∷ [])
      balancer
      fleet)
run-Follows_example =
    run-Follows parse "self" none
      (changed (some answered) ∷ changed none ∷ stop ∷ changed none ∷ []) balancer fleet
      (omega arith, (omega arith, (omega arith, tt)))
