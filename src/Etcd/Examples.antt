-- ===== src/Etcd/Examples.antt =====
-- A service of cmd/http_server/main.go, and the theorems there.
use service_template.Base.{ℕ, zero, suc, ◌≡◌, refl, true, false, none, some, [], ◌∷◌, ◌++◌}
use service_template.Etcd.{
  EtcdClientService, Etcd, Attempt, keep_alive_closed, close_client, new_service, restart,
  restart_loop, run_attempt, attempt_lease, keep_alive, Round, serving, get_local_ip,
}
use service_template.Etcd.Restart.{Unreachable}
use service_template.Etcd.Session.{Succeeds, messages}

abbrev service : EtcdClientService
service = record {
  client = 0;
  lease = some 10;
  session = none;
  service_id = "7";
  host = "http://10.0.0.1:8080";
  key = "/services/my-service/7";
}

abbrev cluster : Etcd
cluster = record { open_clients = 0 ∷ []; keys = []; revoked = [] }

abbrev unreachable : Attempt
unreachable = record {
  done_before = false;
  new_client = none;
  done_waiting = false;
  grant = none;
  put_fails = false;
  keep_alive_fails = false;
  beats = [];
}

abbrev put_refused : Attempt
put_refused = record unreachable { new_client = some 1; grant = some 11; put_fails = true }

abbrev success : Attempt
success = record unreachable {
  new_client = some 2;
  grant = some 12;
  beats = messages (10 ∷ 10 ∷ []) ++ keep_alive_closed ∷ [];
}

-- The first attempt finds nobody, the second is refused the put, and the third serves.
abbrev third_serves : ℕ → Attempt
third_serves zero = unreachable
third_serves (suc zero) = put_refused
third_serves (suc (suc _)) = record success { beats = messages (10 ∷ []) }

restart_run : (restart third_serves service cluster).0 ≡ serving (new_service 2 12 service)
unfolding restart restart_loop run_attempt attempt_lease close_client keep_alive new_service
restart_run = refl

abbrev lost_round : Round
lost_round = record { done = false; attempts = λ n. unreachable }

is_unreachable : Unreachable unreachable
is_unreachable = record { not_done = refl; no_client = refl; waited = refl }

abbrev closing_round : Round
closing_round = record { done = false; attempts = λ n. success }

success-Succeeds : Succeeds success 2 12
success-Succeeds = record { not_done = refl; made = refl; granted = refl; put = refl; alive = refl }

local_ip_run :
    get_local_ip (
      record { is_ip_net = true; is_loopback = true; is_to4 = true; ip = "127.0.0.1" }
      ∷ record { is_ip_net = true; is_loopback = false; is_to4 = true; ip = "10.0.0.1" }
      ∷ [])
    ≡ "10.0.0.1"
unfolding get_local_ip
local_ip_run = refl
