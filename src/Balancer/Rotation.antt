-- ===== src/Balancer/Rotation.antt =====
-- `RoundRobbinNextBackend`: which backend is next.
use service_template.Base.{
  ℕ, zero, suc, ◌+◌, ◌-◌, ◌%◌, ◌<◌, ◌≡◌, refl, true, false, Option, none, some, List, [], ◌∷◌, ◌==◌,
  length, get_elem?, returned, panicked, arith, ap, ◌∙◌, sym, ◌⊎◌, inl, inr, Bool-cases,
}
use mathlib.Core.Path.{subst}
use native.Mathlib.Decide.{dec_lt}
use native.Mathlib.Nat.{mod-add-mod, add-mod-mod, mod-eq_of_lt, mod-lt, add-mod_right}
use service_template.Balancer.{
  Fleet, LoadBalancer, advance, find_next, is_alive, round_robbin_next_backend, proxied,
  unavailable, serve_http,
}

-- The place `j` places behind the current one, round the list.
abbrev pub slot : LoadBalancer → ℕ → ℕ
slot lb j = (lb.current + j) % length lb.backends

-- The current place is one of the list's.
abbrev pub IsPlaced : LoadBalancer → Type 0
IsPlaced lb = lb.current < length lb.backends

-- The backend at a place of the list, which is down.
pub record Down (lb : LoadBalancer) (f : Fleet) (place : ℕ) : Type 0 where
  pub backend : ℕ
  pub at : get_elem? lb.backends place ≡ some backend
  pub down : is_alive backend f ≡ false

advance-IsPlaced : (lb : LoadBalancer) → IsPlaced lb → IsPlaced (advance lb)
unfolding advance
advance-IsPlaced lb h = mod-lt (lb.current + 1) (omega arith)

slot-advance : (lb : LoadBalancer) (j : ℕ) → slot (advance lb) j ≡ slot lb (suc j)
unfolding advance
slot-advance lb j =
    mod-add-mod (lb.current + 1) (length lb.backends) j
    ∙ ap (λ k. k % length lb.backends) (omega arith)

slot-zero : (lb : LoadBalancer) → IsPlaced lb → slot lb 0 ≡ lb.current
slot-zero lb h = ap (λ k. k % length lb.backends) (omega arith) ∙ mod-eq_of_lt h

-- The balancer `k` places further on.
abbrev pub moved : LoadBalancer → ℕ → LoadBalancer
moved lb k = record lb { current = slot lb k }

moved-advance : (lb : LoadBalancer) (k : ℕ) → moved (advance lb) k ≡ moved lb (suc k)
unfolding advance
moved-advance lb k = ap (λ c. record { backends = lb.backends; current = c }) (slot-advance lb k)

advance-moved : (lb : LoadBalancer) → advance lb ≡ moved lb 1
unfolding advance
advance-moved lb = refl

find_next-up :
    (rounds : ℕ) (lb : LoadBalancer) (f : Fleet) (b : ℕ)
    → get_elem? lb.backends lb.current ≡ some b
    → is_alive b f ≡ true
    → find_next (suc rounds) lb f ≡ returned (some b, advance lb)
unfolding find_next
find_next-up rounds lb f b at up = rw (at, find_next, up)

find_next-down :
    (rounds : ℕ) (lb : LoadBalancer) (f : Fleet) (b : ℕ)
    → get_elem? lb.backends lb.current ≡ some b
    → is_alive b f ≡ false
    → find_next (suc rounds) lb f ≡ find_next rounds (advance lb) f
unfolding find_next
find_next-down rounds lb f b at down = rw (at, find_next, down)

Down-advance :
    (lb : LoadBalancer) (f : Fleet) (j : ℕ)
    → Down lb f (slot lb (suc j))
    → Down (advance lb) f (slot (advance lb) j)
Down-advance lb f j d = record {
  backend = d.backend;
  at = rw (slot-advance lb j) (unfold advance in d.at);
  down = d.down;
}

at_current :
    (lb : LoadBalancer) (o : Option ℕ)
    → IsPlaced lb
    → get_elem? lb.backends (slot lb 0) ≡ o
    → get_elem? lb.backends lb.current ≡ o
at_current lb o h at = ap (get_elem? lb.backends) (sym (slot-zero lb h)) ∙ at

find_next-first :
    (k rounds : ℕ) (lb : LoadBalancer) (f : Fleet) (b : ℕ)
    → IsPlaced lb
    → k < rounds
    → ((j : ℕ) → j < k → Down lb f (slot lb j))
    → get_elem? lb.backends (slot lb k) ≡ some b
    → is_alive b f ≡ true
    → find_next rounds lb f ≡ returned (some b, moved lb (suc k))
find_next-first k zero lb f b h lt before at up = absurd (omega arith)
find_next-first zero (suc rounds) lb f b h lt before at up =
    find_next-up rounds lb f b (at_current lb (some b) h at) up
    ∙ ap (λ l. returned (some b, l)) (advance-moved lb)
find_next-first (suc k) (suc rounds) lb f b h lt before at up =
    let d = before 0 (omega arith) in
    find_next-down rounds lb f d.backend (at_current lb (some d.backend) h d.at) d.down
    ∙ find_next-first k rounds (advance lb) f b (advance-IsPlaced lb h) (omega arith)
        (λ j l. Down-advance lb f j (before (suc j) (omega arith)))
        (rw (slot-advance lb k) (unfold advance in at)) up
    ∙ ap (λ l. returned (some b, l)) (moved-advance lb (suc k))

find_next-none :
    (rounds : ℕ) (lb : LoadBalancer) (f : Fleet)
    → IsPlaced lb
    → ((j : ℕ) → j < rounds → Down lb f (slot lb j))
    → find_next rounds lb f ≡ returned (none, moved lb rounds)
find_next-none zero lb f h down =
    unfold find_next in ap (λ c. returned (none, record lb { current = c })) (sym (slot-zero lb h))
find_next-none (suc rounds) lb f h down =
    let d = down 0 (omega arith) in
    find_next-down rounds lb f d.backend (at_current lb (some d.backend) h d.at) d.down
    ∙ find_next-none rounds (advance lb) f (advance-IsPlaced lb h)
        (λ j l. Down-advance lb f j (down (suc j) (omega arith)))
    ∙ ap (λ l. returned (none, l)) (moved-advance lb rounds)

-- The first look and the loop together are one loop with a round more.
next-find_next :
    (lb : LoadBalancer) (f : Fleet)
    → IsPlaced lb
    → round_robbin_next_backend lb f ≡ find_next (suc (length lb.backends)) lb f
unfolding round_robbin_next_backend find_next
next-find_next lb f h =
    let some_left : (length lb.backends == 0) ≡ false = ground arith in rw some_left

-- The next backend is the first one that is alive, counted from the current place round the list,
-- and the place behind it is the current one then. If that is `k` places on, `k` are down.
pub round_robbin_next_backend-first :
    (lb : LoadBalancer) (f : Fleet) (k b : ℕ)
    → IsPlaced lb
    → k < length lb.backends
    → ((j : ℕ) → j < k → Down lb f (slot lb j))
    → get_elem? lb.backends (slot lb k) ≡ some b
    → is_alive b f ≡ true
    → round_robbin_next_backend lb f ≡ returned (some b, moved lb (suc k))
round_robbin_next_backend-first lb f k b h lt before at up =
    next-find_next lb f h
    ∙ find_next-first k (suc (length lb.backends)) lb f b h (omega arith) before at up

-- A place of the list is a slot.
Down-place :
    (lb : LoadBalancer) (f : Fleet) (i : ℕ)
    → IsPlaced lb
    → i < length lb.backends
    → ((j : ℕ) → j < length lb.backends → Down lb f (slot lb j))
    → Down lb f i
Down-place lb f i h lt down =
    let n = length lb.backends in
    let back : slot lb ((i + n - lb.current) % n) ≡ i =
      add-mod-mod lb.current (i + n - lb.current) n
      ∙ ap (λ k. k % n) (omega arith)
      ∙ add-mod_right i n
      ∙ mod-eq_of_lt lt in
    subst (Down lb f) back (down ((i + n - lb.current) % n) (mod-lt _ (omega arith)))

get_elem?-some :
    {A : Type 0} (xs : List A) (i : ℕ) → i < length xs → (a : A) × (get_elem? xs i ≡ some a)
get_elem?-some [] i h = absurd (omega arith)
get_elem?-some (x ∷ xs) zero h = (x, refl)
get_elem?-some (x ∷ xs) (suc i) h = get_elem?-some xs i (omega arith)

-- The first backend that is alive, `k` places on.
pub record FirstUp (lb : LoadBalancer) (f : Fleet) (k b : ℕ) : Type 0 where
  pub before : (j : ℕ) → j < k → Down lb f (slot lb j)
  pub at : get_elem? lb.backends (slot lb k) ≡ some b
  pub up : is_alive b f ≡ true

search_up :
    (lb : LoadBalancer) (f : Fleet) (n : ℕ)
    → IsPlaced lb
    → ((k : ℕ) × (b : ℕ) × (k < n) × FirstUp lb f k b) ⊎ ((j : ℕ) → j < n → Down lb f (slot lb j))
search_up lb f zero h = inr (λ j lt. absurd (omega arith))
search_up lb f (suc n) h = elim (search_up lb f n h) [
  | inl (k, b, lt, first) ↦ inl (k, b, omega arith, first)
  | inr down ↦
      let (b, at) = get_elem?-some lb.backends (slot lb n) (mod-lt _ (omega arith)) in
      elim (Bool-cases (is_alive b f)) [
        | inl up ↦ inl (n, b, omega arith, record { before = down; at = at; up = up })
        | inr off ↦ inr (λ j lt. elim (dec_lt j n) [
          | yes below ↦ down j below
          | no not_below ↦
              subst (λ i. Down lb f (slot lb i)) (omega arith)
                (record { backend = b; at = at; down = off })
        ])
      ]
]

-- What `RoundRobbinNextBackend` and `ServeHTTP` answer on every list that is not empty: the first
-- backend alive, or none where all are down.
abbrev pub Answers : LoadBalancer → Fleet → Type 0
Answers lb f =
    ((k : ℕ) × (b : ℕ) × (k < length lb.backends)
      × FirstUp lb f k b
      × (round_robbin_next_backend lb f ≡ returned (some b, moved lb (suc k)))
      × (serve_http lb f ≡ returned (proxied b, moved lb (suc k))))
    ⊎ (((i : ℕ) → i < length lb.backends → Down lb f i)
        × (round_robbin_next_backend lb f ≡ returned (none, moved lb (suc (length lb.backends))))
        × (serve_http lb f ≡ returned (unavailable, moved lb (suc (length lb.backends)))))

-- On a list that is not empty, whatever the current place in it, `RoundRobbinNextBackend` answers
-- the first backend that is alive, counted from the current place round the list, and goes to the
-- place behind it; only where all are down does it answer none. `ServeHTTP` hands the request to that
-- backend, and answers 503 in the other case. No index is out of range.
pub round_robbin_next_backend-Answers : (lb : LoadBalancer) (f : Fleet) → IsPlaced lb → Answers lb f
unfolding serve_http
round_robbin_next_backend-Answers lb f h = elim (search_up lb f (length lb.backends) h) [
  | inl (k, b, lt, u) ↦
      let e = round_robbin_next_backend-first lb f k b h lt u.before u.at u.up in
      inl (k, b, lt, u, e, rw (e, serve_http))
  | inr down ↦
      let all_down = λ (i : ℕ) (lt : i < length lb.backends). Down-place lb f i h lt down in
      let slots = λ (j : ℕ) (lt : j < suc (length lb.backends)).
        all_down (slot lb j) (mod-lt _ (omega arith)) in
      let e = next-find_next lb f h ∙ find_next-none (suc (length lb.backends)) lb f h slots in
      inr (all_down, e, rw (e, serve_http))
]

-- What `i` calls in a row answer.
abbrev pub picks : ℕ → LoadBalancer → Fleet → List (Option ℕ)
picks zero lb f = []
picks (suc i) lb f = elim (round_robbin_next_backend lb f) [
  | panicked ↦ []
  | returned (r, lb') ↦ r ∷ picks i lb' f
]

-- The backends at the next `i` places round the list.
abbrev pub places : ℕ → LoadBalancer → List (Option ℕ)
places zero lb = []
places (suc i) lb = get_elem? lb.backends lb.current ∷ places i (advance lb)

-- While all backends are alive, the calls go round the list: each answers the backend at the current
-- place, and the next call the one behind it.
pub picks-places :
    (i : ℕ) (lb : LoadBalancer) (f : Fleet)
    → IsPlaced lb
    → ((j b : ℕ) → get_elem? lb.backends j ≡ some b → is_alive b f ≡ true)
    → picks i lb f ≡ places i lb
picks-places zero lb f h up = refl
picks-places (suc i) lb f h up =
    let (b, at) = get_elem?-some lb.backends lb.current h in
    let e =
      next-find_next lb f h ∙ find_next-up (length lb.backends) lb f b at (up lb.current b at) in
    rw (e, picks, at)
      (ap (λ l. some b ∷ l)
        (picks-places i (advance lb) f (advance-IsPlaced lb h) (unfold advance in up)))
