-- ===== src/Sse/Examples.antt =====
-- The first event of cmd/sse_server/main.go, its text in English, and the theorems there.
use service_template.Base.{suc, false, runes, [], ◌∷◌, length, some, ◌≡◌, refl, arith, ◌++◌}
use service_template.Sse.Server.{Event, send_all, send_sse, data_lines, field_line}
use service_template.Sse.Client.{response_of, Listened, server_closed, start_listen}
use service_template.Sse.RoundTrip.{heard_all, start_listen-send_all}
use service_template.Sse.Ends.{start_listen-ends}

abbrev alert : Event
alert = record { event = runes "alert"; id = runes "1"; bytes = runes "Hello,\n world" }

alert_bytes : send_all (alert ∷ []) ≡ runes "event: alert\nid: 1\ndata: Hello,\ndata:  world\n\n"
unfolding send_all send_sse data_lines field_line
alert_bytes = refl

start_listen-send_all_example :
    start_listen
      (suc (length (send_all (alert ∷ []))))
      (λ n. false)
      (response_of
        (runes "text/event-stream" ++ runes "; charset=utf-8")
        (record { bytes = send_all (alert ∷ []); breaks = false }))
    ≡ some (record { messages = heard_all (alert ∷ []); closed = 1; ending = server_closed })
start_listen-send_all_example =
    start_listen-send_all (alert ∷ []) (runes "; charset=utf-8")
      (((refl, (refl, (refl, (refl, (refl, tt))))), (refl, tt)), tt)

start_listen-ends_example :
    (l : Listened) × (start_listen 8
        (λ n. false)
        (response_of
          (runes "text/event-stream")
          (record { bytes = runes "data: x"; breaks = false }))
      ≡ some l)
    × (l.closed ≡ 1)
start_listen-ends_example =
    start_listen-ends 8 (λ n. false)
      (response_of (runes "text/event-stream") (record { bytes = runes "data: x"; breaks = false }))
      (omega arith)
