-- ===== src/Etcd/Restart.antt =====
-- `restart` and `Register`.
use service_template.Base.{
  ℕ, zero, suc, ◌<◌, ◌≡◌, refl, ◌∙◌, ap, false, Option, none, some, List, [], ◌∷◌, ◌⊎◌,
}
use service_template.Etcd.{
  EtcdClientService, Entry, Etcd, Attempt, context_cancelled_err, Restarted, answered, keep_alive,
  new_service, put_key, run_attempt, restart_loop, restart, Round, running, register,
}

-- What an attempt comes to: `restart` goes on to the next one, ends since the context is done, or
-- registers the service under a new lease and serves it.
pub record GoesOn (a : Attempt) (w : Etcd) (r : Option Restarted × Etcd) : Type 0 where
  pub more : r.0 ≡ none
  pub same_clients : r.1.open_clients ≡ w.open_clients

pub record Cancelled (w : Etcd) (r : Restarted) (w' : Etcd) : Type 0 where
  pub result : r ≡ answered none (some context_cancelled_err)
  pub same_clients : w'.open_clients ≡ w.open_clients

pub record Registered (limit : ℕ) (attempts : ℕ → Attempt) (s : EtcdClientService) (w : Etcd)
    (r : Restarted) (w' : Etcd) : Type 0 where
  pub number : ℕ
  pub in_time : number < limit
  pub client : ℕ
  pub lease : ℕ
  pub older : List Entry
  pub result : r ≡ keep_alive (attempts number).beats (new_service client lease s)
  pub one_client : w'.open_clients ≡ client ∷ w.open_clients
  pub registered : w'.keys ≡ record { name = s.key; value = s.host; lease = lease } ∷ older

-- The three cases of one attempt.
abbrev AttemptCase : Attempt → EtcdClientService → Etcd → Option Restarted × Etcd → Type 0
AttemptCase a s w r =
    GoesOn a w r
    ⊎ ((r.0 ≡ some (answered none (some context_cancelled_err)))
        × (r.1.open_clients ≡ w.open_clients))
    ⊎ ((client : ℕ) × (lease : ℕ) × (r.0 ≡ some (keep_alive a.beats (new_service client lease s)))
        × (r.1
            ≡ put_key (new_service client lease s) lease
                (record w { open_clients = client ∷ w.open_clients })))

-- What `restart` comes to from attempt `n` on.
abbrev pub RestartCase : ℕ → (ℕ → Attempt) → EtcdClientService → Etcd → Restarted → Etcd → Type 0
RestartCase limit attempts s w r w' =
    Cancelled w r w'
    ⊎ Registered limit attempts s w r w'
    ⊎ ((r ≡ answered (some s) none) × (w'.open_clients ≡ w.open_clients))

pub restart_loop-end :
    (left n : ℕ) (attempts : ℕ → Attempt) (s : EtcdClientService) (w : Etcd) (r : Restarted)
    → (run_attempt (attempts n) s w).0 ≡ some r
    → restart_loop (suc left) n attempts s w ≡ (r, (run_attempt (attempts n) s w).1)
unfolding restart_loop
restart_loop-end left n attempts s w r e = rw (e, restart_loop)

restart_loop-more :
    (left n : ℕ) (attempts : ℕ → Attempt) (s : EtcdClientService) (w : Etcd)
    → (run_attempt (attempts n) s w).0 ≡ none
    → restart_loop (suc left) n attempts s w
      ≡ restart_loop left (suc n) attempts s (run_attempt (attempts n) s w).1
unfolding restart_loop
restart_loop-more left n attempts s w e = rw (e, restart_loop)

abbrev LoopCase : ℕ → (ℕ → Attempt) → EtcdClientService → Etcd → Restarted × Etcd → Type 0
LoopCase limit attempts s w found = RestartCase limit attempts s w found.0 found.1

-- etcd is not reached, and the context is not done.
pub record Unreachable (a : Attempt) : Type 0 where
  pub not_done : a.done_before ≡ false
  pub no_client : a.new_client ≡ none
  pub waited : a.done_waiting ≡ false

restart_loop-Unreachable :
    (left n : ℕ) (attempts : ℕ → Attempt) (s : EtcdClientService) (w : Etcd)
    → ((i : ℕ) → Unreachable (attempts i))
    → restart_loop left n attempts s w ≡ (answered (some s) none, w)
restart_loop-Unreachable zero n attempts s w h = unfold restart_loop in refl
restart_loop-Unreachable (suc left) n attempts s w h =
    let u = h n in
    let fails : run_attempt (attempts n) s w ≡ (none, w) =
      unfold run_attempt in rw (u.not_done, u.no_client, u.waited) in
    restart_loop-more left n attempts s w (ap (λ t. t.0) fails)
    ∙ ap (λ t. restart_loop left (suc n) attempts s t.1) fails
    ∙ restart_loop-Unreachable left (suc n) attempts s w h

-- Every turn finds etcd out of reach.
abbrev pub AllUnreachable : List Round → Type 0
AllUnreachable [] = Unit
AllUnreachable (r ∷ rounds) =
    (r.done ≡ false) × ((i : ℕ) → Unreachable (r.attempts i)) × AllUnreachable rounds

register-found :
    (r : Round) (rounds : List Round) (s s' : EtcdClientService) (w w' : Etcd)
    → r.done ≡ false
    → restart r.attempts s w ≡ (answered (some s') none, w')
    → register (r ∷ rounds) s w ≡ register rounds s' w'
unfolding register
register-found r rounds s s' w w' on e =
    rw (on, ap (λ t. t.0) e, register) (ap (λ v. register rounds s' v) (ap (λ t. t.1) e))

-- The goroutine of `Register` never gives up while etcd is out of reach and the context is not done:
-- after any number of turns, of five attempts each, it runs on with the service that it began with,
-- and no client or key is left behind.
pub register-AllUnreachable :
    (rounds : List Round) (s : EtcdClientService) (w : Etcd)
    → AllUnreachable rounds
    → register rounds s w ≡ (running s, w)
register-AllUnreachable [] s w h = unfold register in refl
register-AllUnreachable (r ∷ rounds) s w (on, all, later) =
    register-found r rounds s s w w on
      (unfold restart in restart_loop-Unreachable 5 0 r.attempts s w all)
    ∙ register-AllUnreachable rounds s w later
