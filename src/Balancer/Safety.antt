-- ===== src/Balancer/Safety.antt =====
-- The balancer over its life: requests, updates and health checks in any order.
use service_template.Base.{
  ℕ, suc, ◌+◌, ◌<◌, ◌≡◌, refl, sym, ◌==◌, true, String, Option, none, some, List, [], ◌∷◌, length,
  ◌⊎◌, inl, inr, All, arith, Outcome, returned, panicked,
}
use mathlib.Core.Path.{subst}
use native.Mathlib.Nat.{mod-lt}
use service_template.Balancer.{
  Fleet, LoadBalancer, new_load_balancer, round_robbin_next_backend, Served, proxied, unavailable,
  serve_http, update_backends, check_backends,
}
use service_template.Balancer.Rotation.{IsPlaced, moved, round_robbin_next_backend-Answers}
use service_template.Balancer.Update.{Below, update_backends-Updated}
use service_template.Balancer.Health.{check_backends-Checked}

-- A call of `ServeHTTP` or `UpdateBackends`, or a tick of `HealthCheck`.
pub data Event : Type 0 where
  request : Event
  update : (response : Option (List (String × String))) → Event
  tick : (probe : String → Option ℕ) (order : List ℕ) → Event

module _ (parse : String → Option String) (own : String) where
  abbrev pub run_event : Event → LoadBalancer → Fleet → Outcome (LoadBalancer × Fleet)
  run_event request lb f = elim (serve_http lb f) [
    | panicked ↦ panicked
    | returned r ↦ returned (r.1, f)
  ]
  run_event (update response) lb f = returned (update_backends parse own response lb f)
  run_event (tick probe order) lb f = returned (lb, check_backends probe order f)

  abbrev pub run_events : List Event → LoadBalancer → Fleet → Outcome (LoadBalancer × Fleet)
  run_events [] lb f = returned (lb, f)
  run_events (e ∷ events) lb f = elim (run_event e lb f) [
    | panicked ↦ panicked
    | returned r ↦ run_events events r.0 r.1
  ]

-- The current place is one of the list's, or the list is empty; its addresses are those of backends.
pub record IsSound (lb : LoadBalancer) (f : Fleet) : Type 0 where
  pub placed : (length lb.backends ≡ 0) ⊎ IsPlaced lb
  pub below : Below f lb.backends

-- An outcome that is no panic, and is sound.
pub record Survives (r : Outcome (LoadBalancer × Fleet)) : Type 0 where
  pub balancer : LoadBalancer
  pub fleet : Fleet
  pub result : r ≡ returned (balancer, fleet)
  pub sound : IsSound balancer fleet

moved-IsSound :
    (lb : LoadBalancer) (f : Fleet) (k : ℕ) → IsPlaced lb → IsSound lb f → IsSound (moved lb k) f
moved-IsSound lb f k h s = record {
  placed = inr (mod-lt (lb.current + k) (omega arith));
  below = s.below;
}

serve_http-empty :
    (lb : LoadBalancer) (f : Fleet)
    → length lb.backends ≡ 0
    → serve_http lb f ≡ returned (unavailable, lb)
unfolding serve_http round_robbin_next_backend
serve_http-empty lb f empty =
    let e : (length lb.backends == 0) ≡ true = ground arith in rw (e, serve_http)

-- What a request comes to.
serve_http-Survives :
    (lb : LoadBalancer) (f : Fleet)
    → IsSound lb f
    → (served : Served) × (lb' : LoadBalancer) × (serve_http lb f ≡ returned (served, lb'))
      × IsSound lb' f
serve_http-Survives lb f s = elim s.placed [
  | inl empty ↦ (unavailable, lb, serve_http-empty lb f empty, s)
  | inr h ↦ elim (round_robbin_next_backend-Answers lb f h) [
    | inl (k, b, lt, first, next, served) ↦
        (proxied b, moved lb (suc k), served, moved-IsSound lb f (suc k) h s)
    | inr (down, next, served) ↦ (
      unavailable,
      moved lb (suc (length lb.backends)),
      served,
      moved-IsSound lb f (suc (length lb.backends)) h s,
    )
  ]
]

front-placed : (bs : List ℕ) → (length bs ≡ 0) ⊎ (0 < length bs)
front-placed [] = inl refl
front-placed (b ∷ bs) = inr (omega arith)

update-IsSound :
    (parse : String → Option String) (own : String) (response : Option (List (String × String)))
    (lb : LoadBalancer) (f : Fleet)
    → IsSound lb f
    → IsSound
        (update_backends parse own response lb f).0
        (update_backends parse own response lb f).1
update-IsSound parse own none lb f s =
    subst (λ (r : LoadBalancer × Fleet). IsSound r.0 r.1)
      (sym (update_backends-Updated parse own [] lb f s.below).1) s
update-IsSound parse own (some kvs) lb f s =
    let ((u, zero_place), failed) = update_backends-Updated parse own kvs lb f s.below in
    let after = (update_backends parse own (some kvs) lb f).0 in
    record {
      placed =
          subst (λ c. (length after.backends ≡ 0) ⊎ (c < length after.backends)) (sym zero_place)
            (front-placed after.backends);
      below = u.below;
    }

tick-IsSound :
    (probe : String → Option ℕ) (order : List ℕ) (lb : LoadBalancer) (f : Fleet)
    → IsSound lb f
    → IsSound lb (check_backends probe order f)
tick-IsSound probe order lb f s = record {
  placed = s.placed;
  below =
      subst (λ n. All (λ b. b < n) lb.backends)
        (sym (check_backends-Checked probe order f).same_fresh) s.below;
}

module _ (parse : String → Option String) (own : String) where
  run_event-Survives :
      (e : Event) (lb : LoadBalancer) (f : Fleet)
      → IsSound lb f
      → Survives (run_event parse own e lb f)
  run_event-Survives request lb f s =
      let (served, lb', e, sound) = serve_http-Survives lb f s in
      rw (e, run_event) (record { balancer = lb'; fleet = f; result = refl; sound = sound })
  run_event-Survives (update response) lb f s = record {
    balancer = _;
    fleet = _;
    result = refl;
    sound = update-IsSound parse own response lb f s;
  }
  run_event-Survives (tick probe order) lb f s = record {
    balancer = _;
    fleet = _;
    result = refl;
    sound = tick-IsSound probe order lb f s;
  }

  -- Whatever requests, updates and health checks come, in any order, no index is out of range: none of
  -- them panics, and the balancer is sound again after each. A new balancer is.
  pub run_events-Survives :
      (events : List Event) (lb : LoadBalancer) (f : Fleet)
      → IsSound lb f
      → Survives (run_events parse own events lb f) × IsSound new_load_balancer f
  run_events-Survives [] lb f s = (
    record { balancer = lb; fleet = f; result = refl; sound = s },
    record { placed = inl refl; below = tt },
  )
  run_events-Survives (e ∷ events) lb f s =
      let one = run_event-Survives e lb f s in
      let (rest, new) = run_events-Survives events one.balancer one.fleet one.sound in
      (rw (one.result, run_events) rest, record { placed = inl refl; below = tt })
