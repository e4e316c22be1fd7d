-- ===== src/Etcd.antt =====
-- pkg/etcd.go: `EtcdClientService`. What the etcd client and the network answer is a parameter, given
-- attempt by attempt; `Etcd` is what the program has done by its calls: the clients that are open, the keys
-- that were put, each with its lease, and the leases that were revoked. The logger has no state.
pub mod Restart
pub mod Session
pub mod Connect
mod Examples
use service_template.Base.{
  ℕ, zero, suc, ◌==◌, Bool, true, false, not, ◌&&◌, String, Option, none, some, List, [], ◌∷◌, ◌++◌,
  if◌then◌else◌,
}

pub record EtcdClientService : Type 0 where
  pub client : ℕ
  pub lease : Option ℕ
  pub session : Option ℕ
  pub service_id : String
  pub host : String
  pub key : String

-- A key, its value and its lease.
pub record Entry : Type 0 where
  pub name : String
  pub value : String
  pub lease : ℕ

pub record Etcd : Type 0 where
  pub open_clients : List ℕ
  pub keys : List Entry
  pub revoked : List ℕ

-- `Client.Close`
unfoldable pub close_client : ℕ → List ℕ → List ℕ
close_client c [] = []
close_client c (d ∷ ds) = if d == c then ds else d ∷ close_client c ds

-- What the loop over the KeepAlive channel receives.
pub data Beat : Type 0 where
  keep_alive_message : (ttl : ℕ) → Beat
  keep_alive_closed : Beat
  context_done : Beat

-- What the calls of one attempt of `restart` answer, `none` or `true` for an error: whether the context
-- is done at its start; the client, or whether the context is done before the second is over; the
-- lease; the put; the KeepAlive channel and what comes from it.
pub record Attempt : Type 0 where
  pub done_before : Bool
  pub new_client : Option ℕ
  pub done_waiting : Bool
  pub grant : Option ℕ
  pub put_fails : Bool
  pub keep_alive_fails : Bool
  pub beats : List Beat

pub data RestartError : Type 0 where
  closed_err : RestartError
  context_cancelled_err : RestartError

-- What `restart` returns, nil as `none`, or the service with which it still waits for messages.
pub data Restarted : Type 0 where
  answered : Option EtcdClientService → Option RestartError → Restarted
  serving : EtcdClientService → Restarted

-- The loop over the KeepAlive channel.
unfoldable pub keep_alive : List Beat → EtcdClientService → Restarted
keep_alive [] s = serving s
keep_alive (keep_alive_message ttl ∷ beats) s = keep_alive beats s
keep_alive (keep_alive_closed ∷ beats) s = answered (some s) (some context_cancelled_err)
keep_alive (context_done ∷ beats) s = answered (some s) (some context_cancelled_err)

-- `newService`
unfoldable pub new_service : ℕ → ℕ → EtcdClientService → EtcdClientService
new_service client lease s = record {
  client = client;
  lease = some lease;
  session = none;
  service_id = s.service_id;
  host = s.host;
  key = s.key;
}

-- `newClient.Put`, with the lease
unfoldable pub put_key : EtcdClientService → ℕ → Etcd → Etcd
put_key s lease w = record w {
  keys = record { name = s.key; value = s.host; lease = lease } ∷ w.keys;
}

-- The attempt from the lease on; `none` is `continue`.
unfoldable pub attempt_lease : Attempt → ℕ → EtcdClientService → Etcd → Option Restarted × Etcd
attempt_lease a client s w = elim a.grant [
  | none ↦ (none, record w { open_clients = close_client client w.open_clients })
  | some lease ↦
      if a.put_fails
      then (none, record w { open_clients = close_client client w.open_clients })
      else if a.keep_alive_fails
      then (
        none,
        record w {
          open_clients = close_client client w.open_clients;
          keys = (put_key (new_service client lease s) lease w).keys;
        },
      )
      else (
        some (keep_alive a.beats (new_service client lease s)),
        put_key (new_service client lease s) lease w,
      )
]

-- The body of the loop of `restart`.
unfoldable pub run_attempt : Attempt → EtcdClientService → Etcd → Option Restarted × Etcd
run_attempt a s w =
    if a.done_before
    then (some (answered none (some context_cancelled_err)), w)
    else elim a.new_client [
      | none ↦
          if a.done_waiting
          then (some (answered none (some context_cancelled_err)), w)
          else (none, w)
      | some client ↦ attempt_lease a client s (record w { open_clients = client ∷ w.open_clients })
    ]

-- The loop of `restart`, with the number of attempts that are left and that of the next one.
unfoldable pub restart_loop : ℕ → ℕ → (ℕ → Attempt) → EtcdClientService → Etcd → Restarted × Etcd
restart_loop zero n attempts s w = (answered (some s) none, w)
restart_loop (suc left) n attempts s w =
    let tried = run_attempt (attempts n) s w in
    elim tried.0 [ some r ↦ (r, tried.1) | none ↦ restart_loop left (suc n) attempts s tried.1 ]

abbrev pub max_reconnect_attempts : ℕ
max_reconnect_attempts = 5

unfoldable pub restart : (ℕ → Attempt) → EtcdClientService → Etcd → Restarted × Etcd
restart attempts s w = restart_loop max_reconnect_attempts 0 attempts s w

-- One turn of the loop of `Register`: whether the context is done, and what `restart` finds.
pub record Round : Type 0 where
  pub done : Bool
  pub attempts : ℕ → Attempt

-- Where the goroutine of `Register` stands after some turns.
pub data Registration : Type 0 where
  running : EtcdClientService → Registration
  ended : Registration

unfoldable pub register : List Round → EtcdClientService → Etcd → Registration × Etcd
register [] s w = (running s, w)
register (r ∷ rounds) s w =
    if r.done
    then (ended, w)
    else let found = restart r.attempts s w in
      elim found.0 [
        | serving s' ↦ (running s', found.1)
        | answered _ (some closed_err) ↦ register rounds s found.1
        | answered _ (some context_cancelled_err) ↦ (ended, found.1)
        | answered none none ↦ (ended, found.1)
        | answered (some s') none ↦ register rounds s' found.1
      ]

-- The function that `Close` returns; `revoke_fails` says that etcd answers `Revoke` with an error.
unfoldable pub close_service : Bool → EtcdClientService → Etcd → Etcd
close_service revoke_fails s w = record {
  open_clients = close_client s.client w.open_clients;
  keys = w.keys;
  revoked = elim s.lease [
    | none ↦ w.revoked
    | some lease ↦ if revoke_fails then w.revoked else lease ∷ w.revoked
  ];
}

-- `CreateSession`; `new_session` is what `concurrency.NewSession` answers, whose error is dropped.
unfoldable pub create_session : Option ℕ → EtcdClientService → Option ℕ × EtcdClientService
create_session new_session s = elim s.session [
  | some session ↦ (some session, s)
  | none ↦ (new_session, record s { session = new_session })
]

unfoldable pub stop_session : EtcdClientService → EtcdClientService
stop_session s = elim s.session [ none ↦ s | some session ↦ record s { session = none } ]

unfoldable pub get_session : EtcdClientService → Option ℕ
get_session s = s.session

-- An address of the interfaces: whether it is a `*net.IPNet`, a loopback one, one with four bytes.
pub record Addr : Type 0 where
  pub is_ip_net : Bool
  pub is_loopback : Bool
  pub is_to4 : Bool
  pub ip : String

unfoldable pub get_local_ip : List Addr → String
get_local_ip [] = "127.0.0.1"
get_local_ip (a ∷ addrs) =
    if a.is_ip_net && (not a.is_loopback && a.is_to4) then a.ip else get_local_ip addrs
