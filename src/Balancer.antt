-- ===== src/Balancer.antt =====
-- pkg/etdc_load_balancer.go: `LoadBalancer` and its `Backend`s, which the balancer and the health
-- checks share by pointer. The mutexes make each operation atomic. `net/url`, the etcd client and the
-- HTTP client are parameters.
pub mod Rotation
pub mod Update
pub mod Health
pub mod Watch
pub mod Election
pub mod Safety
mod Examples
use service_template.Base.{
  ℕ, zero, suc, ◌+◌, ◌%◌, Bool, true, false, String, str_eq, Option, none, some, List, [], ◌∷◌,
  ◌++◌, ◌==◌, if◌then◌else◌, length, get_elem?, Outcome, returned, panicked,
}

-- The `Backend`s by address, each with the text of its URL; `fresh` is the next address.
pub record Fleet : Type 0 where
  pub url : ℕ → String
  pub alive : ℕ → Bool
  pub fresh : ℕ

unfoldable pub set_alive : ℕ → Bool → Fleet → Fleet
set_alive b alive f = record f { alive = λ p. if p == b then alive else f.alive p }

unfoldable pub is_alive : ℕ → Fleet → Bool
is_alive b f = f.alive b

pub record LoadBalancer : Type 0 where
  pub backends : List ℕ
  pub current : ℕ

abbrev pub new_load_balancer : LoadBalancer
new_load_balancer = record { backends = []; current = 0 }

-- `lb.Current = (lb.Current + 1) % len(lb.Backends)`
unfoldable pub advance : LoadBalancer → LoadBalancer
advance lb = record lb { current = (lb.current + 1) % length lb.backends }

-- The loop of `RoundRobbinNextBackend`, with the number of rounds that are left.
unfoldable pub find_next : ℕ → LoadBalancer → Fleet → Outcome (Option ℕ × LoadBalancer)
find_next zero lb f = returned (none, lb)
find_next (suc rounds) lb f = elim (get_elem? lb.backends lb.current) [
  | none ↦ panicked
  | some b ↦
      let rest = find_next rounds (advance lb) f in
      if is_alive b f then returned (some b, advance lb) else rest
]

unfoldable pub round_robbin_next_backend : LoadBalancer → Fleet → Outcome (Option ℕ × LoadBalancer)
round_robbin_next_backend lb f =
    if length lb.backends == 0
    then returned (none, lb)
    else elim (get_elem? lb.backends lb.current) [
      | none ↦ panicked
      | some b ↦
          if is_alive b f
          then returned (some b, advance lb)
          else find_next (length lb.backends) (advance lb) f
    ]

-- What `ServeHTTP` does with a request: it hands it to a backend, or answers 503.
pub data Served : Type 0 where
  proxied : ℕ → Served
  unavailable : Served

unfoldable pub serve_http : LoadBalancer → Fleet → Outcome (Served × LoadBalancer)
serve_http lb f = elim (round_robbin_next_backend lb f) [
  | panicked ↦ panicked
  | returned (some b, lb') ↦ returned (proxied b, lb')
  | returned (none, lb') ↦ returned (unavailable, lb')
]

-- `&Backend{URL: backendURL, Alive: true, …}`, at the next address
unfoldable pub add_backend : String → Fleet → Fleet
add_backend url f = record {
  url = λ p. if p == f.fresh then url else f.url p;
  alive = λ p. if p == f.fresh then true else f.alive p;
  fresh = suc f.fresh;
}

-- The first of the old backends with this URL.
unfoldable pub find_existing : String → List ℕ → Fleet → Option ℕ
find_existing url [] f = none
find_existing url (b ∷ bs) f = if str_eq (f.url b) url then some b else find_existing url bs f

-- `parse` is `url.Parse` followed by `String`: the text of the URL, or `none` for an error.
module _ (parse : String → Option String) where
  -- The loop over the keys and values that etcd returned; `own` is the key of this service.
  unfoldable pub collect : String → List ℕ → List (String × String) → Fleet → List ℕ × Fleet
  collect own old [] f = ([], f)
  collect own old ((key, value) ∷ kvs) f =
      if str_eq key own then collect own old kvs f else elim (parse value) [
        | none ↦ collect own old kvs f
        | some url ↦ elim (find_existing url old f) [
          | some b ↦ let rest = collect own old kvs f in (b ∷ rest.0, rest.1)
          | none ↦ let rest = collect own old kvs (add_backend url f) in (f.fresh ∷ rest.0, rest.1)
        ]
      ]

  -- `response` is what `client.Get` returned, `none` for an error.
  unfoldable pub update_backends :
      String → Option (List (String × String)) → LoadBalancer → Fleet → LoadBalancer × Fleet
  update_backends own none lb f = (lb, f)
  update_backends own (some kvs) lb f =
      let found = collect own lb.backends kvs f in
      (record { backends = found.0; current = 0 }, found.1)

-- What the loop of `WatchBackends` receives: `response` is what `UpdateBackends` then gets.
pub data WatchEvent : Type 0 where
  stop : WatchEvent
  context_done : WatchEvent
  channel_closed : WatchEvent
  changed : (response : Option (List (String × String))) → WatchEvent

unfoldable pub watch_backends :
    (String → Option String)
    → String
    → List WatchEvent
    → LoadBalancer
    → Fleet
    → LoadBalancer × Fleet
watch_backends parse own [] lb f = (lb, f)
watch_backends parse own (stop ∷ events) lb f = (lb, f)
watch_backends parse own (context_done ∷ events) lb f = (lb, f)
watch_backends parse own (channel_closed ∷ events) lb f = (lb, f)
watch_backends parse own (changed response ∷ events) lb f =
    let next = update_backends parse own response lb f in
    watch_backends parse own events next.0 next.1

-- `Run` up to the end of its watching goroutine: `response` is what the first `UpdateBackends` gets.
unfoldable pub run :
    (String → Option String)
    → String
    → Option (List (String × String))
    → List WatchEvent
    → LoadBalancer
    → Fleet
    → LoadBalancer × Fleet
run parse own response events lb f =
    let first = update_backends parse own response lb f in
    watch_backends parse own events first.0 first.1

-- `isBackendAlive`: `probe` is the status of the answer to a request for /health of the host of the
-- URL, or `none` for an error.
unfoldable pub is_backend_alive : (String → Option ℕ) → String → Bool
is_backend_alive probe url = elim (probe url) [ none ↦ false | some status ↦ status == 200 ]

-- One goroutine of `HealthCheck`, and those of one tick in the order in which they come to an end.
unfoldable pub check_backend : (String → Option ℕ) → ℕ → Fleet → Fleet
check_backend probe b f = set_alive b (is_backend_alive probe (f.url b)) f

unfoldable pub check_backends : (String → Option ℕ) → List ℕ → Fleet → Fleet
check_backends probe [] f = f
check_backends probe (b ∷ order) f = check_backends probe order (check_backend probe b f)
