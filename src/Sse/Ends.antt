-- ===== src/Sse/Ends.antt =====
-- server/http_client.go: the loop of `StartListen` ends, and closes what it has to.
use service_template.Base.{
  ℕ, zero, suc, ◌<◌, ◌==◌, Bool, true, false, Runes, runes, List, [], ◌∷◌, length, Option, none,
  some, if-true, if◌then◌else◌, ◌≡◌, refl, sym, ◌∙◌, Bool-cases, Option-cases, inl, inr, arith,
}
use mathlib.Core.Path.{subst}
use mathlib.Core.Option.{some-injective, none-ne-some}
use service_template.Sse.Text.{newline, read_string, cut_prefix}
use service_template.Sse.Client.{
  Reply, bad_request, no_response, response_of, Listened, listen, on_line, start_listen,
  server_closed, read_failed, context_cancelled, unlistened, unexpected_content_type,
}

read_string-newline :
    (c : ℕ) (s : Runes) → (c == newline) ≡ true → read_string (c ∷ s) ≡ some (c ∷ [], s)
read_string-newline c s h = if-true (c == newline) _ h

read_string-none :
    (c : ℕ) (s : Runes) → (c == newline) ≡ false → read_string s ≡ none → read_string (c ∷ s) ≡ none
read_string-none c s h e = rw (h, e)

read_string-some :
    (c : ℕ) (s : Runes) (l : Runes × Runes)
    → (c == newline) ≡ false
    → read_string s ≡ some l
    → read_string (c ∷ s) ≡ some (c ∷ l.0, l.1)
read_string-some c s l h e = rw (h, e)

-- Behind a line there is less than before it.
read_string-shorter :
    (s : Runes) (l : Runes × Runes) → read_string s ≡ some l → length l.1 < length s
read_string-shorter [] l e = absurd (none-ne-some l e)
read_string-shorter (c ∷ s) l e = elim (Bool-cases (c == newline)) [
  | inl h ↦
      let same = some-injective (c ∷ [], s) l (sym (read_string-newline c s h) ∙ e) in
      subst (λ (t : Runes × Runes). length t.1 < suc (length s)) same (omega arith)
  | inr h ↦ elim (Option-cases (read_string s)) [
    | inl n ↦ absurd (none-ne-some l (sym (read_string-none c s h n) ∙ e))
    | inr (k, n) ↦
        let same = some-injective (c ∷ k.0, k.1) l (sym (read_string-some c s k h n) ∙ e) in
        subst (λ (t : Runes × Runes). length t.1 < suc (length s)) same
          (omega (arith, read_string-shorter s k n))
  ]
]

-- What the loop comes to when it ends.
abbrev Ended : Option Listened → Type 0
Ended result = (l : Listened) × (result ≡ some l) × (l.closed ≡ 1)

listen-done :
    (fuel turn : ℕ) (done : ℕ → Bool) (breaks : Bool) (bytes : Runes) (messages : List Runes)
    → done turn ≡ true
    → listen (suc fuel) turn done breaks bytes messages
      ≡ some (record { messages = messages; closed = 1; ending = context_cancelled })
unfolding listen
listen-done fuel turn done breaks bytes messages h = rw (listen, h)

listen-none :
    (fuel turn : ℕ) (done : ℕ → Bool) (breaks : Bool) (bytes : Runes) (messages : List Runes)
    → done turn ≡ false
    → read_string bytes ≡ none
    → listen (suc fuel) turn done breaks bytes messages
      ≡ some (record {
        messages = messages;
        closed = 1;
        ending = if breaks then read_failed else server_closed;
      })
unfolding listen
listen-none fuel turn done breaks bytes messages h e = rw (listen, h, e)

listen-some :
    (fuel turn : ℕ) (done : ℕ → Bool) (breaks : Bool) (bytes : Runes) (messages : List Runes)
    (l : Runes × Runes)
    → done turn ≡ false
    → read_string bytes ≡ some l
    → listen (suc fuel) turn done breaks bytes messages
      ≡ listen fuel (suc turn) done breaks l.1 (on_line l.0 messages)
unfolding listen
listen-some fuel turn done breaks bytes messages l h e = rw (listen, h, e)

listen-Ended :
    (fuel turn : ℕ) (done : ℕ → Bool) (breaks : Bool) (bytes : Runes) (messages : List Runes)
    → length bytes < fuel
    → Ended (listen fuel turn done breaks bytes messages)
listen-Ended zero turn done breaks bytes messages h = absurd (omega (arith, h))
listen-Ended (suc fuel) turn done breaks bytes messages h = elim (Bool-cases (done turn)) [
  | inl d ↦ (_, listen-done fuel turn done breaks bytes messages d, refl)
  | inr d ↦ elim (Option-cases (read_string bytes)) [
    | inl e ↦ (_, listen-none fuel turn done breaks bytes messages d e, refl)
    | inr (l, e) ↦ subst Ended (sym (listen-some fuel turn done breaks bytes messages l d e)) (
        listen-Ended fuel (suc turn) done breaks l.1 (on_line l.0 messages)
          (omega (arith, h, read_string-shorter bytes l e)))
  ]
]

-- How many bytes there are to read, and how many bodies to close.
abbrev pub size_of : Reply → ℕ
size_of bad_request = 0
size_of no_response = 0
size_of (response_of content_type body) = length body.bytes

abbrev pub bodies_of : Reply → ℕ
bodies_of bad_request = 0
bodies_of no_response = 0
bodies_of (response_of content_type body) = 1

-- `StartListen` returns whatever the server sends, whether the connection breaks or is closed, and whenever
-- the context is done, if there is fuel for as many turns as bytes and one more; it has closed the body
-- once then, if there was a response.
pub start_listen-ends :
    (fuel : ℕ) (done : ℕ → Bool) (reply : Reply)
    → size_of reply < fuel
    → (l : Listened) × (start_listen fuel done reply ≡ some l) × (l.closed ≡ bodies_of reply)
unfolding start_listen
start_listen-ends fuel done bad_request h = (_, refl, refl)
start_listen-ends fuel done no_response h = (_, refl, refl)
start_listen-ends fuel done (response_of content_type body) h =
    elim (cut_prefix (runes "text/event-stream") content_type)
      as (λ x. Ended (elim x [
        | none ↦ some (unlistened 1 (unexpected_content_type content_type))
        | some rest ↦ listen fuel 0 done body.breaks body.bytes []
      ])) [
        | none ↦ (_, refl, refl)
        | some rest ↦ listen-Ended fuel 0 done body.breaks body.bytes [] h
      ]
