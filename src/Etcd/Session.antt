-- ===== src/Etcd/Session.antt =====
-- The session, the lease and the KeepAlive channel of an `EtcdClientService` over its life.
use service_template.Base.{
  ℕ, ◌≡◌, ◌≢◌, refl, ◌∙◌, ap, ◌==◌, false, Option, none, some, List, [], ◌∷◌, ◌++◌, arith,
}
use service_template.Etcd.{
  EtcdClientService, Etcd, close_client, Beat, keep_alive_message, keep_alive_closed, Attempt,
  context_cancelled_err, answered, keep_alive, new_service, put_key, attempt_lease, run_attempt,
  restart, Round, ended, register, close_service, create_session, stop_session, get_session,
}
use service_template.Etcd.Restart.{restart_loop-end}

-- `CreateSession` and `StopSession` as their callers see them.
abbrev pub KeepsSession : Option ℕ → Option ℕ → ℕ → EtcdClientService → Type 0
KeepsSession answer answer' session s =
    (get_session (create_session answer s).1 ≡ (create_session answer s).0)
    × (create_session answer' (create_session (some session) s).1 ≡ create_session (some session) s)
    × (get_session (stop_session (create_session answer s).1) ≡ none)
    × ((create_session answer' (stop_session s)).0 ≡ answer')

KeepsSession-of :
    (answer answer' : Option ℕ) (session : ℕ) (o : Option ℕ) (s : EtcdClientService)
    → KeepsSession answer answer' session (record s { session = o })
unfolding get_session create_session stop_session
KeepsSession-of none answer' session none s = (refl, refl, refl, refl)
KeepsSession-of (some n) answer' session none s = (refl, refl, refl, refl)
KeepsSession-of answer answer' session (some old) s = (refl, refl, refl, refl)

-- `CreateSession` answers the session that the service then has; once there is one, a second call
-- answers it again and changes nothing; `StopSession` leaves none, and the next call after it answers
-- the new session.
pub create_session-KeepsSession :
    (answer answer' : Option ℕ) (session : ℕ) (s : EtcdClientService)
    → KeepsSession answer answer' session s
create_session-KeepsSession answer answer' session s =
    KeepsSession-of answer answer' session s.session s

-- KeepAlive messages of these lifetimes.
abbrev pub messages : List ℕ → List Beat
messages [] = []
messages (ttl ∷ ttls) = keep_alive_message ttl ∷ messages ttls

keep_alive-messages :
    (ttls : List ℕ) (beats : List Beat) (s : EtcdClientService)
    → keep_alive (messages ttls ++ keep_alive_closed ∷ beats) s
      ≡ answered (some s) (some context_cancelled_err)
unfolding keep_alive
keep_alive-messages [] beats s = refl
keep_alive-messages (ttl ∷ ttls) beats s = keep_alive-messages ttls beats s

-- An attempt all of whose calls succeed.
pub record Succeeds (a : Attempt) (client lease : ℕ) : Type 0 where
  pub not_done : a.done_before ≡ false
  pub made : a.new_client ≡ some client
  pub granted : a.grant ≡ some lease
  pub put : a.put_fails ≡ false
  pub alive : a.keep_alive_fails ≡ false

run_attempt-Succeeds :
    (a : Attempt) (client lease : ℕ) (s : EtcdClientService) (w : Etcd)
    → Succeeds a client lease
    → run_attempt a s w ≡ (
      some (keep_alive a.beats (new_service client lease s)),
      put_key
          (new_service client lease s)
          lease
          (record w { open_clients = client ∷ w.open_clients }),
    )
unfolding run_attempt attempt_lease
run_attempt-Succeeds a client lease s w h = rw (h.not_done, h.made, h.granted, h.put, h.alive)

register-cancelled :
    (r : Round) (rounds : List Round) (s : EtcdClientService) (w : Etcd)
    (answer : Option EtcdClientService)
    → r.done ≡ false
    → (restart r.attempts s w).0 ≡ answered answer (some context_cancelled_err)
    → register (r ∷ rounds) s w ≡ (ended, (restart r.attempts s w).1)
unfolding register
register-cancelled r rounds s w answer on e = rw (on, e, register)

-- Once the KeepAlive channel closes after the first attempt, however many messages came before, the
-- goroutine of `Register` is at its end, though the context is not done: whatever is to come, it tries
-- no more to register the service. `Close` then closes the client and revokes the lease that the
-- service began with, and no other: the new client stays open, and the lease of the new key is kept.
pub register-keep_alive_closed :
    (r : Round) (rounds : List Round) (client lease lease' : ℕ) (ttls : List ℕ) (beats : List Beat)
    (s : EtcdClientService) (w : Etcd)
    → r.done ≡ false
    → Succeeds (r.attempts 0) client lease
    → (r.attempts 0).beats ≡ messages ttls ++ keep_alive_closed ∷ beats
    → s.client ≢ client
    → s.lease ≡ some lease'
    → (register (r ∷ rounds) s w ≡ (
      ended,
      put_key
          (new_service client lease s)
          lease
          (record w { open_clients = client ∷ w.open_clients }),
    ))
      × (close_service false s (register (r ∷ rounds) s w).1 ≡ record {
        open_clients = client ∷ close_client s.client w.open_clients;
        keys = record { name = s.key; value = s.host; lease = lease } ∷ w.keys;
        revoked = lease' ∷ w.revoked;
      })
register-keep_alive_closed r rounds client lease lease' ttls beats s w on ok closes apart held =
    let e = run_attempt-Succeeds (r.attempts 0) client lease s w ok in
    let found : restart r.attempts s w ≡ (
      keep_alive (r.attempts 0).beats (new_service client lease s),
      put_key (new_service client lease s) lease
          (record w { open_clients = client ∷ w.open_clients }),
    ) =
      unfold restart in
      restart_loop-end 4 0 r.attempts s w _ (ap (λ t. t.0) e)
      ∙ ap (λ v. (keep_alive (r.attempts 0).beats (new_service client lease s), v))
          (ap (λ t. t.1) e) in
    let ends =
      register-cancelled r rounds s w (some (new_service client lease s)) on (
        ap (λ t. t.0) found
        ∙ ap (λ b. keep_alive b (new_service client lease s)) closes
        ∙ keep_alive-messages ttls beats (new_service client lease s))
      ∙ ap (λ v. (ended, v)) (ap (λ t. t.1) found) in
    let other : (client == s.client) ≡ false = ground arith in
    (ends, rw ends (unfold close_service put_key new_service close_client in rw (other, held)))
