-- ===== src/Sse/Connection.antt =====
-- server/http_client.go: `NewHttpClientConnection` and `NewHttpsClientConnection`. What the file and the parser
-- of certificates answer is given.
use service_template.Base.{
  ℕ, Bool, false, String, List, Option, none, some, Result, ok, err, ◌≡◌, if-false,
}
use service_template.Sse.Client.{Url, round_trip}

-- The transport beneath: the default one, or one with certificates of its own.
pub data BaseTransport (Cert : Type 0) : Type 0 where
  default_transport : BaseTransport Cert
  tls_transport : (root_cas : List Cert) → BaseTransport Cert

pub record HttpClientConnection (Cert : Type 0) : Type 0 where
  pub host : Url
  pub rt : BaseTransport Cert
  pub timeout : ℕ
  pub base_url : Url

module _ {Cert : Type 0} where
  unfoldable pub new_http_client_connection : Url → ℕ → HttpClientConnection Cert
  new_http_client_connection target timeout = record {
    host = target;
    rt = default_transport;
    timeout = timeout;
    base_url = target;
  }

  -- `none` is the end of the program by `Fatal`.
  unfoldable pub new_https_client_connection :
      (read_file : String → Result String String)
      → (parse : String → Option (List Cert)) → Url
      → (crt : String) → ℕ
      → Option (HttpClientConnection Cert)
  new_https_client_connection read_file parse target crt timeout = elim (read_file crt) [
    | err e ↦ none
    | ok bytes ↦ elim (parse bytes) [
      | none ↦ none
      | some certs ↦
          some (record {
            host = target;
            rt = tls_transport certs;
            timeout = timeout;
            base_url = target;
          })
    ]
  ]

  unfoldable pub get_base_url : HttpClientConnection Cert → Url
  get_base_url c = c.base_url

  -- A request of another host than the target's gets an error and does not reach the transport, for
  -- what transport ever, where the two are not equal as `EqualFold` compares them.
  pub round_trip-other :
      {A : Type 0} (print : Url → String) (equal_fold : String → String → Bool)
      (transport : BaseTransport Cert → Url → Result String A) (target url : Url) (timeout : ℕ)
      → equal_fold
          (print (record { scheme = url.scheme; host = url.host; path = "" }))
          (print (get_base_url (new_http_client_connection target timeout)))
        ≡ false
      → let c : HttpClientConnection Cert = new_http_client_connection target timeout in
        round_trip print equal_fold c.host (transport c.rt) url ≡ err url.host
  unfolding new_http_client_connection round_trip get_base_url
  round_trip-other print equal_fold transport target url timeout h = if-false _ _ h
