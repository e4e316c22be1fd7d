-- ===== src/WebSocket/Dial.antt =====
-- server/websocket_clent.go: the functions that connect. What the system's certificates, the file, the parser
-- of certificates and `Dial` answer is given.
use service_template.Base.{ℕ, String, List, ◌++◌, Option, none, some, Result, ok, err, ◌≡◌, refl}

-- What `Dial` answers: a connection, or an error, with the response's status if there is a response.
pub data Answer : Type 0 where
  connection : (conn : ℕ) → Answer
  refused : (error : String) (status : Option ℕ) → Answer

-- What the functions return, `fatal` for the end of the program: a connection, with `Close` of it, or an
-- error with nil for both; the line of the log has the status.
pub data Dialled : Type 0 where
  fatal : Dialled
  connected : (conn shutdown : ℕ) → Dialled
  failed : (error : String) (logged_status : Option ℕ) → Dialled

unfoldable pub after_dial : Answer → Dialled
after_dial (connection conn) = connected conn conn
after_dial (refused error status) = failed error status

-- `NewWebSocketHttpClientConnection`
unfoldable pub new_web_socket_http_client_connection : (dial : String → Answer) → String → Dialled
new_web_socket_http_client_connection dial url = after_dial (dial url)

-- `NewWebSocketHttpsClientConnection`; `dial` has the certificates of the dialer's configuration.
unfoldable pub new_web_socket_https_client_connection :
    {Cert : Type 0} (system_pool : Result String (List Cert))
    → (read_file : String → Result String String) → (parse : String → Option (List Cert))
    → (dial : List Cert → String → Answer) → (url crt : String) → Dialled
new_web_socket_https_client_connection system_pool read_file parse dial url crt =
    elim (read_file crt) [
      | err e ↦ fatal
      | ok bytes ↦ elim (parse bytes) [
        | none ↦ fatal
        | some certs ↦
            after_dial (dial (elim system_pool [ err e ↦ certs | ok roots ↦ roots ++ certs ]) url)
      ]
    ]

-- With a certificate that is read and parsed, the connection is made with it behind the system's, or
-- with it alone where the system has none.
pub https-http :
    {Cert : Type 0} (roots certs : List Cert) (dial : List Cert → String → Answer)
    (url crt bytes : String)
    → (new_web_socket_https_client_connection
          (ok roots)
          (λ f. ok bytes)
          (λ b. some certs)
          dial
          url
          crt
        ≡ new_web_socket_http_client_connection (dial (roots ++ certs)) url)
      × (new_web_socket_https_client_connection
            (err "no pool")
            (λ f. ok bytes)
            (λ b. some certs)
            dial
            url
            crt
          ≡ new_web_socket_http_client_connection (dial certs) url)
unfolding new_web_socket_https_client_connection new_web_socket_http_client_connection
https-http roots certs dial url crt bytes = (refl, refl)
