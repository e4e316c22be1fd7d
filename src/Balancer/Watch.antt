-- ===== src/Balancer/Watch.antt =====
-- `Run` and `WatchBackends`: what the list of backends follows.
use service_template.Base.{
  ℕ, ◌≤◌, ◌<◌, ◌≡◌, refl, ap, ◌∙◌, String, Option, none, some, List, [], ◌∷◌, map, arith, All,
}
use mathlib.Core.Path.{subst}
use service_template.Balancer.{
  Fleet, LoadBalancer, update_backends, WatchEvent, stop, context_done, channel_closed, changed,
  watch_backends, run,
}
use service_template.Balancer.Update.{wanted, Below, update_backends-Updated}

-- The last response without an error that the loop gets before it ends.
abbrev pub last_heard : List WatchEvent → Option (List (String × String))
last_heard [] = none
last_heard (stop ∷ events) = none
last_heard (context_done ∷ events) = none
last_heard (channel_closed ∷ events) = none
last_heard (changed response ∷ events) = elim (last_heard events) [
  | some kvs ↦ some kvs
  | none ↦ response
]

-- What is left of a balancer and its backends, where the last response without an error was `heard`.
pub record Follows (parse : String → Option String) (own : String) (lb : LoadBalancer) (f : Fleet)
    (heard : Option (List (String × String))) (r : LoadBalancer × Fleet) : Type 0 where
  pub unheard : heard ≡ none → r.0 ≡ lb
  pub urls :
      (kvs : List (String × String))
      → heard ≡ some kvs
      → (map r.1.url r.0.backends ≡ wanted parse own kvs) × (r.0.current ≡ 0)
  pub grows : f.fresh ≤ r.1.fresh
  pub same_url : (p : ℕ) → p < f.fresh → r.1.url p ≡ f.url p
  pub same_alive : (p : ℕ) → p < f.fresh → r.1.alive p ≡ f.alive p
  pub below : Below r.1 r.0.backends

map-agree :
    (g h : ℕ → String) (n : ℕ) (bs : List ℕ)
    → All (λ b. b < n) bs
    → ((p : ℕ) → p < n → g p ≡ h p)
    → map g bs ≡ map h bs
map-agree g h n [] below same = refl
map-agree g h n (b ∷ bs) below same =
    ap (λ u. u ∷ map g bs) (same b below.0) ∙ ap (λ us. h b ∷ us) (map-agree g h n bs below.1 same)

module _ (parse : String → Option String) (own : String) where
  update-Follows :
      (response : Option (List (String × String))) (lb : LoadBalancer) (f : Fleet)
      → Below f lb.backends
      → Follows parse own lb f response (update_backends parse own response lb f)
  unfolding update_backends
  update-Follows none lb f b = record {
    unheard = λ e. refl;
    urls = λ kvs e. cc;
    grows = omega arith;
    same_url = λ p lt. refl;
    same_alive = λ p lt. refl;
    below = b;
  }
  update-Follows (some kvs) lb f b =
      let ((u, at_zero), failed) = update_backends-Updated parse own kvs lb f b in
      record {
        unheard = λ e. cc;
        urls = λ kvs' e. (
          subst
              (λ heard.
                map (update_backends parse own (some kvs) lb f).1.url
                  (update_backends parse own (some kvs) lb f).0.backends
                ≡ wanted parse own heard)
              (cc) u.urls_of,
          at_zero,
        );
        grows = u.grows;
        same_url = u.same_url;
        same_alive = u.same_alive;
        below = u.below;
      }

  -- One update, and what follows it.
  then-Follows :
      (response later : Option (List (String × String))) (lb : LoadBalancer) (f : Fleet)
      (first last : LoadBalancer × Fleet)
      → Follows parse own lb f response first
      → Follows parse own first.0 first.1 later last
      → Follows parse own lb f (elim later [ some kvs ↦ some kvs | none ↦ response ]) last
  then-Follows response (some kvs) lb f first last a b = record {
    unheard = λ e. cc;
    urls = b.urls;
    grows = omega (arith, a.grows, b.grows);
    same_url = λ p lt. b.same_url p (omega (arith, a.grows)) ∙ a.same_url p lt;
    same_alive = λ p lt. b.same_alive p (omega (arith, a.grows)) ∙ a.same_alive p lt;
    below = b.below;
  }
  then-Follows response none lb f first last a b = record {
    unheard = λ e. b.unheard refl ∙ a.unheard e;
    urls = λ kvs e.
        let (same, at_zero) = a.urls kvs e in
        (
          ap (λ (l : LoadBalancer). map last.1.url l.backends) (b.unheard refl)
              ∙ map-agree last.1.url first.1.url first.1.fresh first.0.backends a.below b.same_url
              ∙ same,
          ap (λ (l : LoadBalancer). l.current) (b.unheard refl) ∙ at_zero,
        );
    grows = omega (arith, a.grows, b.grows);
    same_url = λ p lt. b.same_url p (omega (arith, a.grows)) ∙ a.same_url p lt;
    same_alive = λ p lt. b.same_alive p (omega (arith, a.grows)) ∙ a.same_alive p lt;
    below = b.below;
  }

  ended-Follows :
      (lb : LoadBalancer) (f : Fleet) → Below f lb.backends → Follows parse own lb f none (lb, f)
  ended-Follows lb f b = record {
    unheard = λ e. refl;
    urls = λ kvs e. cc;
    grows = omega arith;
    same_url = λ p lt. refl;
    same_alive = λ p lt. refl;
    below = b;
  }

  watch-Follows :
      (events : List WatchEvent) (lb : LoadBalancer) (f : Fleet)
      → Below f lb.backends
      → Follows parse own lb f (last_heard events) (watch_backends parse own events lb f)
  unfolding watch_backends
  watch-Follows [] lb f b = ended-Follows lb f b
  watch-Follows (stop ∷ events) lb f b = ended-Follows lb f b
  watch-Follows (context_done ∷ events) lb f b = ended-Follows lb f b
  watch-Follows (channel_closed ∷ events) lb f b = ended-Follows lb f b
  watch-Follows (changed response ∷ events) lb f b =
      let first = update_backends parse own response lb f in
      let one = update-Follows response lb f b in
      then-Follows response (last_heard events) lb f first
        (watch_backends parse own events first.0 first.1) one
        (watch-Follows events first.0 first.1 one.below)

  -- From `Run` to the end of its watching goroutine, whatever came in between: the backends are those of the last
  -- response without an error that it got before it was stopped, its context was done or etcd closed
  -- the channel, in that response's order, and the first of them is next; with no such response the
  -- balancer is as it was. No backend that there was has another URL, or became alive or dead by it.
  pub run-Follows :
      (response : Option (List (String × String))) (events : List WatchEvent) (lb : LoadBalancer)
      (f : Fleet)
      → Below f lb.backends
      → Follows parse own lb f
          (last_heard (changed response ∷ events))
          (run parse own response events lb f)
  unfolding run
  run-Follows response events lb f b =
      unfold watch_backends in watch-Follows (changed response ∷ events) lb f b
