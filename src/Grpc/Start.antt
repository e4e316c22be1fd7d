-- ===== src/Grpc/Start.antt =====
-- server/grpc_server.go: the two ways to start a server.
use service_template.Base.{String, List, [], ◌∷◌, ◌++◌, Option, Result, ok, err, ◌≡◌, refl}
use service_template.Grpc.{Started, fatal, load_tls_credentials, start, start_tls}

-- With credentials `StartTLS` does what `Start` does with one more option, and without them it ends the
-- program with their error, whatever the port.
pub start_tls-start :
    {Creds Server Opt : Type 0} (load : String → String → Result String Creds)
    (creds_option : Creds → Opt) (new_server : List Opt → Server)
    (listen_error : String → Option String) (cert key : String)
    (register_services : Server → Server) (interceptors : List Opt) (port : String)
    → start_tls load creds_option new_server listen_error cert key register_services interceptors
        port
      ≡ (elim (load cert key) as (λ r. Started Server) [
        | err e ↦ fatal e
        | ok creds ↦
            start new_server listen_error register_services
              (interceptors ++ creds_option creds ∷ [])
              port
      ])
unfolding start_tls start load_tls_credentials
start_tls-start load creds_option new_server listen_error cert key register_services interceptors
      port =
    refl
