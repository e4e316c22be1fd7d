-- ===== src/WebSocket/Handler/Cleanup.antt =====
-- internal/websocket_handler/echo_app.go: what a call of the handler leaves behind, however it ends.
use service_template.Base.{
  ℕ, ◌==◌, eq→==, Bool, true, false, not, ◌&&◌, List, [], Option, some, if◌then◌else◌, ◌≡◌, refl,
  sym, ap, ◌∙◌, if-branches, if-false,
}
use mathlib.Core.Option.{some-injective, none-ne-some}
use service_template.WebSocket.Hub.{has_client, register, unregister}
use service_template.WebSocket.Hub.Members.{has_client-unregister}
use service_template.WebSocket.Pump.{Message}
use service_template.WebSocket.Router.{Json, Routes}
use service_template.WebSocket.Handler.{
  Read, Next, continue_loop, break_loop, panics, Handled, Opening, main_loop, after_loop, ws,
}

-- The connection is closed and not in the hub, and the hub has the others as they are.
pub record CleanedUp (conn : ℕ) (hub : List ℕ) (h : Handled) : Type 0 where
  pub closed : h.conn_closed ≡ true
  pub gone : has_client conn h.clients ≡ false
  pub others : (d : ℕ) → (conn == d) ≡ false → has_client d h.clients ≡ has_client d hub

unregister-CleanedUp :
    (conn : ℕ) (hub : List ℕ) (h : Handled)
    → h.conn_closed ≡ true
    → h.clients ≡ unregister conn hub
    → CleanedUp conn hub h
unregister-CleanedUp conn hub h closed e = record {
  closed = closed;
  gone =
      ap (has_client conn) e
      ∙ has_client-unregister conn conn hub
      ∙ ap (λ x. not x && has_client conn hub) (eq→== conn conn refl);
  others = λ d apart.
      ap (has_client d) e
      ∙ has_client-unregister conn d hub
      ∙ ap (λ x. not x && has_client d hub) apart;
}

after_loop-CleanedUp :
    (conn : ℕ) (hub : List ℕ) (sent : List Message) (next : Next) (h : Handled)
    → after_loop conn hub (sent, next) ≡ some h
    → CleanedUp conn hub h
unfolding after_loop
after_loop-CleanedUp conn hub sent continue_loop h e = absurd (none-ne-some h e)
after_loop-CleanedUp conn hub sent break_loop h e =
    let same = some-injective _ h e in
    unregister-CleanedUp conn hub h (sym (ap (λ x. x.conn_closed) same))
      (sym (ap (λ x. x.clients) same))
after_loop-CleanedUp conn hub sent panics h e =
    let same = some-injective _ h e in
    unregister-CleanedUp conn hub h (sym (ap (λ x. x.conn_closed) same))
      (sym (ap (λ x. x.clients) same))

after_upgrade-CleanedUp :
    (json : Json) (routes : Routes) (o : Opening) (reads : List (Read × Bool))
    (others : List ℕ → List ℕ) (clients : List ℕ) (h : Handled)
    → (if o.deadline_fails
        then some (record {
          clients = unregister o.conn (others (register o.conn clients));
          conn_closed = true;
          sent = [];
          responses_closed = false;
        })
        else after_loop o.conn (others (register o.conn clients)) (main_loop json routes reads))
      ≡ some h
    → CleanedUp o.conn (others (register o.conn clients)) h
after_upgrade-CleanedUp json routes o reads others clients h =
    let hub = others (register o.conn clients) in
    let looped = main_loop json routes reads in
    if-branches (λ (x : Option Handled). x ≡ some h → CleanedUp o.conn hub h) o.deadline_fails
      (λ b e.
        let same = some-injective _ h e in
        unregister-CleanedUp o.conn hub h (sym (ap (λ x. x.conn_closed) same))
          (sym (ap (λ x. x.clients) same)))
      (λ b e. after_loop-CleanedUp o.conn hub looped.0 looped.1 h e)

-- When a call of the handler has ended, by the end of its loop, by an error of the deadline or by a panic,
-- and the connection was upgraded, the connection is closed and not in the hub, and the hub has the
-- other connections that it had before.
pub ws-CleanedUp :
    (json : Json) (routes : Routes) (o : Opening) (reads : List (Read × Bool))
    (others : List ℕ → List ℕ) (clients : List ℕ) (h : Handled)
    → o.upgrade_fails ≡ false
    → ws json routes o reads others clients ≡ some h
    → CleanedUp o.conn (others (register o.conn clients)) h
unfolding ws
ws-CleanedUp json routes o reads others clients h up e =
    after_upgrade-CleanedUp json routes o reads others clients h
      (sym (if-false o.upgrade_fails _ up) ∙ e)
