-- ===== src/WebSocket/Client.antt =====
-- internal/websocket_client/simply_client.go: `clientApp` and `DoClientApp`. What the server answers to
-- each read of a connection, and when the program's context is done, is given.
pub mod Reconnect
use service_template.Base.{
  ℕ, zero, suc, Bool, true, false, String, List, [], ◌∷◌, ◌++◌, Option, none, some, if◌then◌else◌,
  pos,
}
use service_template.WebSocket.Pump.{Message}

-- A read of `ReadLoop`: a message or an error, and whether the context is done behind it.
pub data ClientRead : Type 0 where
  client_received : Message → (done : Bool) → ClientRead
  client_failed : String → ClientRead
  client_panics : ClientRead

-- What the goroutine of `ReadLoop` comes to: what it sent to the pump, the error that it put into `errChan`,
-- and whether it closed the channels.
pub record ReadLoop : Type 0 where
  pub responses : List Message
  pub error : Option String
  pub closed : Bool

unfoldable pub after_response : Message → ReadLoop → ReadLoop
after_response m l = record l { responses = m ∷ l.responses }

abbrev pub context_error : String
context_error = "context canceled"

-- `ReadLoop`; each message comes back as a text.
unfoldable pub read_loop : List ClientRead → ReadLoop
read_loop [] = record { responses = []; error = none; closed = false }
read_loop (client_received m done ∷ reads) =
    let rest = read_loop reads in
    if done
    then record { responses = []; error = some context_error; closed = true }
    else after_response (record m { message_type = pos 1 }) rest
read_loop (client_failed e ∷ reads) = record { responses = []; error = some e; closed = true }
read_loop (client_panics ∷ reads) = record { responses = []; error = none; closed = true }

-- What a connection comes to: `Dial` fails, or the reads.
pub data Connection : Type 0 where
  dial_failed : String → Connection
  dialled : List ClientRead → Connection

-- What `errChan` gives after `clientApp`: an error, the end of a closed channel, or nothing.
pub data Received : Type 0 where
  received_error : String → Received
  received_closed : Received
  blocked : Received

-- The first message to the server, which waits in the channel to the pump.
unfoldable pub hello_message : (marshals : String) → Message
hello_message marshals = record { message_type = pos 1; bytes = marshals }

-- `clientApp`: what the pump has to send, and what `errChan` gives.
unfoldable pub client_app : (marshals : String) → Connection → List Message × Received
client_app marshals (dial_failed e) = ([], received_error e)
client_app marshals (dialled reads) =
    let l = read_loop reads in
    (
      hello_message marshals ∷ l.responses,
      elim l.error [
        | some e ↦ received_error e
        | none ↦ if l.closed then received_closed else blocked
      ],
    )

-- A turn of the loop of `DoClientApp`: the connection, whether the `select` finds the context done before
-- the error, and whether it is done two seconds after the error.
pub record ClientTurn : Type 0 where
  pub connection : Connection
  pub done_first : Bool
  pub done_later : Bool

-- How `DoClientApp` stands: it waits for the connection of this number, or it has returned.
pub data Standing : Type 0 where
  waiting : ℕ → Standing
  stopped : ℕ → Standing

-- `DoClientApp` from the connection of the number `n` on.
unfoldable pub do_client_app : String → ℕ → List ClientTurn → Standing
do_client_app marshals n [] = waiting n
do_client_app marshals n (t ∷ turns) =
    let rest = do_client_app marshals (suc n) turns in
    elim t.done_first [
      | true ↦ stopped n
      | false ↦ elim (client_app marshals t.connection).1 [
        | blocked ↦ waiting n
        | received_closed ↦ stopped n
        | received_error e ↦ if t.done_later then stopped n else rest
      ]
    ]
