-- ===== src/Grpc/Client.antt =====
-- server/grpc_client.go. What google.golang.org/grpc, os and crypto/x509 answer is a parameter.
use service_template.Base.{String, Option, none, some, Result, ok, err}

-- A call gives a connection, whose `Close` is its shutdown function, or `logger.Fatal` ends the program.
pub data Dialling (Conn : Type 0) : Type 0 where
  fatal : (message : String) → Dialling Conn
  connected : Conn → Dialling Conn

module _ {Conn Creds : Type 0} (new_client : String → Creds → Result String Conn) where
  unfoldable pub new_client_or_fatal : (target : String) → Creds → Dialling Conn
  new_client_or_fatal target creds = elim (new_client target creds) [
    | err e ↦ fatal "Failed to connect to gRPC server: %v"
    | ok conn ↦ connected conn
  ]

  unfoldable pub new_grpc_client_connection : (insecure : Creds) → (target : String) → Dialling Conn
  unfolding new_client_or_fatal
  new_grpc_client_connection insecure target = new_client_or_fatal target insecure

  -- `append_certs` is `AppendCertsFromPEM` on a new pool, and `new_tls` makes the credentials of it.
  unfoldable pub new_grpcs_client_connection :
      {Bytes Pool : Type 0}
      → (read_file : String → Result String Bytes) → (append_certs : Bytes → Option Pool)
      → (new_tls : Pool → Creds) → (target crt : String) → Dialling Conn
  unfolding new_client_or_fatal
  new_grpcs_client_connection read_file append_certs new_tls target crt = elim (read_file crt) [
    | err e ↦ fatal "Could not read certificate file: %v"
    | ok bytes ↦ elim (append_certs bytes) [
      | none ↦ fatal "Failed to append cert from PEM"
      | some pool ↦ new_client_or_fatal target (new_tls pool)
    ]
  ]
