-- ===== src/Grpc.antt =====
-- server/grpc_server.go: `GRPCServer`. What google.golang.org/grpc and net answer is a parameter: the server
-- that `NewServer` makes of its options, and what `Listen` and `Serve` come to.
pub mod Start
pub mod Client
pub mod Handlers
use service_template.Base.{
  Bool, true, false, String, List, [], ◌∷◌, ◌++◌, Option, none, some, if◌then◌else◌, Result, ok,
  err,
}

-- How a call ends: `log.Fatalf` ends the program; or the server listens on its port.
pub data Started (S : Type 0) : Type 0 where
  fatal : (message : String) → Started S
  serving : (port : String) → S → Started S

unfoldable pub load_tls_credentials :
    {Creds : Type 0}
    → (String → String → Result String Creds)
    → (server_cert server_key : String) → Result String Creds
load_tls_credentials load server_cert server_key = load server_cert server_key

module _ {Server Opt : Type 0} where
  -- `Start`, where `listen_error` is the error of `Listen`, if there is one.
  unfoldable pub start :
      (new_server : List Opt → Server)
      → (listen_error : String → Option String) → (register_services : Server → Server) → List Opt
      → (port : String) → Started Server
  start new_server listen_error register_services interceptors port =
      let server = register_services (new_server interceptors) in
      elim (listen_error port) [ some e ↦ fatal e | none ↦ serving port server ]

  -- `StartTLS`; `creds_option` is `grpc.Creds`.
  unfoldable pub start_tls :
      {Creds : Type 0}
      → (String → String → Result String Creds)
      → (creds_option : Creds → Opt) → (new_server : List Opt → Server)
      → (listen_error : String → Option String) → (server_cert server_key : String)
      → (register_services : Server → Server) → List Opt
      → (port : String) → Started Server
  start_tls load creds_option new_server listen_error server_cert server_key register_services
        interceptors port =
      elim (load_tls_credentials load server_cert server_key) [
        | err e ↦ fatal e
        | ok creds ↦
            let server = register_services (new_server (interceptors ++ creds_option creds ∷ [])) in
            elim (listen_error port) [ some e ↦ fatal e | none ↦ serving port server ]
      ]

  unfoldable pub create_grpc_server :
      (new_server : List Opt → Server)
      → (listen_error : String → Option String) → (register_services : Server → Server)
      → (port : String) → Started Server
  create_grpc_server new_server listen_error register_services port =
      start new_server listen_error register_services [] port

  unfoldable pub create_grpc_server_tls :
      {Creds : Type 0}
      → (String → String → Result String Creds)
      → (creds_option : Creds → Opt) → (new_server : List Opt → Server)
      → (listen_error : String → Option String) → (server_cert server_key : String)
      → (register_services : Server → Server) → (port : String) → Started Server
  create_grpc_server_tls load creds_option new_server listen_error server_cert server_key
        register_services port =
      start_tls load creds_option new_server listen_error server_cert server_key register_services
        [] port
