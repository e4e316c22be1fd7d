-- ===== src/WebSocket/Client/Reconnect.antt =====
-- internal/websocket_client/simply_client.go: the client connects again.
use service_template.Base.{
  ℕ, suc, ◌+◌, true, false, String, List, [], ◌∷◌, ◌++◌, length, none, some, if◌then◌else◌,
  if-false, ◌≡◌, refl, ap, ◌∙◌, All, arith, map, pos,
}
use service_template.WebSocket.Pump.{Message}
use service_template.WebSocket.Client.{
  ClientRead, client_received, client_failed, ReadLoop, after_response, read_loop, Connection,
  dial_failed, dialled, Received, received_error, received_closed, blocked, client_app, ClientTurn,
  waiting, stopped, do_client_app,
}

abbrev pub reads_of : List Message → List ClientRead
reads_of [] = []
reads_of (m ∷ ms) = client_received m false ∷ reads_of ms

abbrev pub as_text : Message → Message
as_text m = record m { message_type = pos 1 }

-- The connection fails at once or after some messages.
pub data Fails : Connection → Type 0 where
  fails_to_dial : (e : String) → Fails (dial_failed e)
  fails_to_read :
      (ms : List Message) (e : String) (rest : List ClientRead)
      → Fails (dialled (reads_of ms ++ client_failed e ∷ rest))

read_loop-fails :
    (ms : List Message) (e : String) (rest : List ClientRead)
    → read_loop (reads_of ms ++ client_failed e ∷ rest)
      ≡ record { responses = map as_text ms; error = some e; closed = true }
unfolding read_loop after_response
read_loop-fails [] e rest = refl
read_loop-fails (m ∷ ms) e rest = ap (after_response (as_text m)) (read_loop-fails ms e rest)

-- The client answers each message with the same text, behind its first message, and then the error is
-- in the channel.
client_app-Fails :
    (marshals : String) (c : Connection)
    → Fails c
    → (e : String) × ((client_app marshals c).1 ≡ received_error e)
unfolding client_app
client_app-Fails marshals _ (fails_to_dial e) = (e, refl)
client_app-Fails marshals _ (fails_to_read ms e rest) = (
  e,
  ap
      (λ (l : ReadLoop). elim l.error as (λ x. Received) [
        | some e ↦ received_error e
        | none ↦ if l.closed then received_closed else blocked
      ])
      (read_loop-fails ms e rest),
)

-- A turn whose connection fails while the context is not done.
abbrev pub IsRetried : ClientTurn → Type 0
IsRetried t = Fails t.connection × (t.done_first ≡ false) × (t.done_later ≡ false)

do_client_app-next :
    (marshals : String) (n : ℕ) (t : ClientTurn) (turns : List ClientTurn) (e : String)
    → t.done_first ≡ false
    → (client_app marshals t.connection).1 ≡ received_error e
    → do_client_app marshals n (t ∷ turns)
      ≡ (if t.done_later then stopped n else do_client_app marshals (suc n) turns)
unfolding do_client_app
do_client_app-next marshals n t turns e f r = simp (f, r)

-- Whatever connections fail, while the context is not done the client waits for a further one: it never
-- gives up.
pub do_client_app-waits :
    (marshals : String) (n : ℕ) (turns : List ClientTurn)
    → All IsRetried turns
    → do_client_app marshals n turns ≡ waiting (length turns + n)
unfolding do_client_app
do_client_app-waits marshals n [] h = ap waiting (omega arith)
do_client_app-waits marshals n (t ∷ turns) h =
    let found = client_app-Fails marshals t.connection h.0.0 in
    do_client_app-next marshals n t turns found.0 h.0.1 found.1
    ∙ if-false t.done_later _ h.0.2
    ∙ do_client_app-waits marshals (suc n) turns h.1
    ∙ ap waiting (omega arith)
