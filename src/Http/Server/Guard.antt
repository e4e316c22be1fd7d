-- ===== src/Http/Server/Guard.antt =====
-- server/http_server.go: which panics leave the handler of a server.
use service_template.Base.{
  Bool, true, false, String, List, [], ◌∷◌, ◌++◌, Option, none, some, ◌≡◌, refl, ap, ◌∙◌,
}
use service_template.Http.Writer.{Writer}
use service_template.Http.Middleware.{Logger, Request, Line, Handler, middlewares}
use service_template.Http.Middleware.Recovery.{serve-returns}
use service_template.Http.Server.{
  HttpServer, new_simple_http_server, use_middlewares, to_configure_handlers, run_http_server,
  run_https_server, create_http_server, create_https_server,
}

-- Whether a server's handler panics at a request: its balancer's panic, or none.
abbrev pub panics_of : Option Handler → Request → Writer → List Line → Bool
panics_of none r w lines = false
panics_of (some b) r w lines = (b r w lines).panics

module _ {Route : Type 0} (same : Logger → Logger → Bool) (nil_panics : Bool)
    (from_nil logger : Logger) (id : String)
    (apply_all : List (Handler → Handler) → Handler → Handler)
    (apply_all-nil : (h : Handler) → apply_all [] h ≡ h)
    (apply_all-cons : (m : Handler → Handler) (ms : List (Handler → Handler)) (h : Handler)
      → apply_all (m ∷ ms) h ≡ m (apply_all ms h))
    (same-sound : (a b : Logger) → same a b ≡ true → a ≡ b) (match : List Route → Handler) where
  -- A server made with the programs' middlewares, of HTTP or of HTTPS, lets no panic of a route out, if
  -- it has no balancer, its configuration adds no middlewares and its router applies the middlewares
  -- around the route, the first outermost. With a balancer every panic of the balancer gets out.
  pub create_servers-panics :
      (balancer : Option Handler) (configure : HttpServer Route → HttpServer Route)
      (port cert_file key_file : String) (r : Request) (w : Writer) (lines : List Line)
      → ((s : HttpServer Route) → (configure s).middlewares ≡ s.middlewares)
      → let mwf = middlewares same nil_panics from_nil logger id in
        let router : List (Handler → Handler) → List Route → Handler =
          λ ms routes. apply_all ms (match routes) in
        ((create_http_server router balancer configure port mwf r w lines).panics
          ≡ panics_of balancer r w lines)
        × ((create_https_server router balancer configure port cert_file key_file mwf r w
              lines).panics
            ≡ panics_of balancer r w lines)
  unfolding create_http_server create_https_server run_http_server run_https_server use_middlewares
      to_configure_handlers new_simple_http_server
  create_servers-panics (some b) configure port cert_file key_file r w lines keeps = (refl, refl)
  create_servers-panics none configure port cert_file key_file r w lines keeps =
      let s : HttpServer Route = new_simple_http_server port in
      let mwf = middlewares same nil_panics from_nil logger id in
      let guarded =
        ap
          (λ (ms : List (Handler → Handler)).
            (apply_all (ms ++ mwf) (match (configure s).routes) r w lines).panics)
          (keeps s)
        ∙ serve-returns same nil_panics from_nil logger id apply_all apply_all-nil apply_all-cons
            same-sound (match (configure s).routes) r w lines in
      (guarded, guarded)
