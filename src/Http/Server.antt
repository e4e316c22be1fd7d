-- ===== src/Http/Server.antt =====
-- server/http_server.go: `HTTPServer`. The router of gorilla/mux is a parameter: what handler it makes of its
-- middlewares and its routes. A server's handler is what `http.Server` calls.
pub mod Guard
use service_template.Base.{
  Bool, true, String, List, [], ◌∷◌, ◌++◌, Option, none, some, if◌then◌else◌, Outcome, returned,
  panicked,
}
use service_template.Http.Middleware.{Handler}

pub record HttpServer (Route : Type 0) : Type 0 where
  pub port : String
  pub middlewares : List (Handler → Handler)
  pub routes : List Route

-- What ends `ListenAndServe`: nothing, the shutdown of the server, or another error.
pub data Listening : Type 0 where
  no_error : Listening
  server_closed : Listening
  failed : Listening

-- The goroutine that listens.
unfoldable pub serve : Listening → Outcome Bool
serve no_error = returned true
serve server_closed = returned true
serve failed = panicked

-- What the function that `shutdown` returns logs, where `fails` says whether `Shutdown` has an error.
pub data ShutdownLine : Type 0 where
  shutting_down : ShutdownLine
  shutdown_failed : ShutdownLine
  has_done : String → ShutdownLine

module _ {Route : Type 0} where
  unfoldable pub new_simple_http_server : String → HttpServer Route
  new_simple_http_server port = record { port = port; middlewares = []; routes = [] }

  -- `Router.Use`
  unfoldable pub use_middlewares : List (Handler → Handler) → HttpServer Route → HttpServer Route
  use_middlewares mwf simple = record simple { middlewares = simple.middlewares ++ mwf }

  unfoldable pub to_configure_handlers :
      (HttpServer Route → HttpServer Route) → HttpServer Route → HttpServer Route
  to_configure_handlers configure simple = configure simple

  -- `RunHTTPServer`: the handler of the server that listens.
  unfoldable pub run_http_server :
      (List (Handler → Handler) → List Route → Handler)
      → Option Handler
      → List (Handler → Handler)
      → HttpServer Route
      → Handler
  run_http_server router balancer mwf simple =
      let used = use_middlewares mwf simple in
      elim balancer [ some b ↦ b | none ↦ router used.middlewares used.routes ]

  -- `RunHTTPSServer`, with the certificate's file and the key's.
  unfoldable pub run_https_server :
      (List (Handler → Handler) → List Route → Handler)
      → Option Handler
      → (cert_file key_file : String) → List (Handler → Handler)
      → HttpServer Route
      → Handler
  run_https_server router balancer cert_file key_file mwf simple =
      let used = use_middlewares mwf simple in
      elim balancer [ some b ↦ b | none ↦ router used.middlewares used.routes ]

  unfoldable pub create_http_server :
      (List (Handler → Handler) → List Route → Handler)
      → Option Handler
      → (HttpServer Route → HttpServer Route)
      → String
      → List (Handler → Handler)
      → Handler
  create_http_server router balancer configure port mwf =
      let simple = new_simple_http_server port in
      elim balancer [
        | some b ↦ run_http_server router (some b) mwf simple
        | none ↦ run_http_server router none mwf (to_configure_handlers configure simple)
      ]

  unfoldable pub create_https_server :
      (List (Handler → Handler) → List Route → Handler)
      → Option Handler
      → (HttpServer Route → HttpServer Route)
      → (port cert_file key_file : String) → List (Handler → Handler)
      → Handler
  create_https_server router balancer configure port cert_file key_file mwf =
      let simple = new_simple_http_server port in
      elim balancer [
        | some b ↦ run_https_server router (some b) cert_file key_file mwf simple
        | none ↦
            run_https_server router none cert_file key_file mwf
              (to_configure_handlers configure simple)
      ]

  unfoldable pub shutdown : Bool → HttpServer Route → List ShutdownLine
  shutdown fails simple =
      shutting_down ∷ (if fails then shutdown_failed ∷ [] else []) ++ has_done simple.port ∷ []
