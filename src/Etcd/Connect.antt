-- ===== src/Etcd/Connect.antt =====
-- pkg/etcd.go: `NewEtcdClientService` and the keys of services. What etcd answers to `New` and `Grant`, the
-- addresses of the interfaces and the random part of an id are given.
use service_template.Base.{
  ℕ, ◌==◌, eq→==, false, String, Option, none, some, List, ◌∷◌, ◌≡◌, refl, sym, ap, ◌∙◌, if-true,
}
use mathlib.Core.Option.{some-injective}
use Prim.Native.String.{◌++◌}
use service_template.Etcd.{EtcdClientService, Etcd, Addr, get_local_ip, close_client, close_service}

-- `NewServiceKey`
unfoldable pub new_service_key : (service_id service_name : String) → String
new_service_key service_id service_name = "/services/" ++ service_name ++ "/" ++ service_id

-- The host: the prefix of the protocol, the address and the port, which has its colon.
unfoldable pub host_of : (protocol_prefix : String) → List Addr → (port : String) → String
host_of protocol_prefix addrs port = protocol_prefix ++ "://" ++ get_local_ip addrs ++ port

-- `NewEtcdClientService`; `none` is the end of the program by `Fatal`.
unfoldable pub new_etcd_client_service :
    (new_client grant : Option ℕ)
    → List Addr
    → (port protocol_prefix key service_id : String) → Option EtcdClientService
new_etcd_client_service new_client grant addrs port protocol_prefix key service_id =
    elim new_client [
      | none ↦ none
      | some client ↦ elim grant [
        | none ↦ none
        | some lease ↦ some (record {
          client = client;
          lease = some lease;
          session = none;
          service_id = service_id;
          host = host_of protocol_prefix addrs port;
          key = key;
        })
      ]
    ]

close_client-first : (c : ℕ) (ds : List ℕ) → close_client c (c ∷ ds) ≡ ds
unfolding close_client
close_client-first c ds = if-true (c == c) _ (eq→== c c refl)

-- What a new service has opened its shutdown closes: its client, and its lease is revoked, where etcd
-- does not refuse.
pub close_service-new_etcd_client_service :
    (client lease : ℕ) (addrs : List Addr) (port protocol_prefix key service_id : String) (w : Etcd)
    (s : EtcdClientService)
    → new_etcd_client_service (some client) (some lease) addrs port protocol_prefix key service_id
      ≡ some s
    → close_service false s (record w { open_clients = client ∷ w.open_clients })
      ≡ record w { revoked = lease ∷ w.revoked }
unfolding new_etcd_client_service close_service
close_service-new_etcd_client_service client lease addrs port protocol_prefix key service_id w s e =
    let opened : Etcd = record w { open_clients = client ∷ w.open_clients } in
    ap (λ x. close_service false x opened) (sym (some-injective _ s e))
    ∙ ap (λ (cs : List ℕ). record w { open_clients = cs; revoked = lease ∷ w.revoked })
        (close_client-first client w.open_clients)
