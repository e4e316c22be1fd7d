-- ===== src/Programs/GrpcClient.antt =====
-- cmd/grpc_client/main.go: two connections, and the variable `shutdown`, which the second `:=` assigns anew.
mod Examples
use service_template.Base.{
  ◌≢◌, List, [], ◌∷◌, ◌++◌, Option, none, some, String, ℤ, pos, All, sym, ap, ◌∙◌,
}
use service_template.App.{Shutdown, register_shutdown, stop}
use service_template.App.Stop.{register_all, call_all}
use service_template.Grpc.Client.{Dialling, fatal, connected}

-- What the closures of the main function share: the connection whose `Close` is in `shutdown`, and the
-- connections that were closed.
pub record Variables (C : Type 0) : Type 0 where
  pub shutdown : Option C
  pub closed : List C

module _ {Conn : Type 0} where
  -- `func() { shutdown() }`
  unfoldable pub call_shutdown : Variables Conn → Variables Conn
  call_shutdown v = elim v.shutdown [
    | none ↦ v
    | some conn ↦ record v { closed = v.closed ++ conn ∷ [] }
  ]

  -- The closures that the function registers, and its variables, when it has come to `Run`; `none` where the
  -- program was ended before.
  unfoldable pub grpc_client_main :
      Dialling Conn → Dialling Conn → Option (List (Shutdown (Variables Conn)) × Variables Conn)
  grpc_client_main (fatal message) second = none
  grpc_client_main (connected a) (fatal message) = none
  grpc_client_main (connected a) (connected b) =
      let logger =
        register_shutdown (record { priority = pos 101; name = "logger"; shutdown_func = λ v. v })
          [] in
      let tls =
        register_shutdown
          (record { priority = pos 1; name = "grpcsClient"; shutdown_func = call_shutdown })
          logger in
      let both =
        register_shutdown
          (record { priority = pos 1; name = "grpcClient"; shutdown_func = call_shutdown }) tls in
      some (both, record { shutdown = some b; closed = [] })

  -- The connections that `Stop` closes at the end.
  abbrev pub closed_by :
      Option (List (Shutdown (Variables Conn)) × Variables Conn) → Option (List Conn)
  closed_by none = none
  closed_by (some (l, v)) = some (stop l v).1.closed
