-- ===== src/Http/Writer/Script.antt =====
-- What a handler does with its `http.ResponseWriter`, call by call, and how the wrapped writer and the
-- response see it.
use service_template.Base.{
  ℕ, Bool, false, String, List, [], ◌∷◌, if◌then◌else◌, ◌≡◌, refl, ap, ◌∙◌, if-agree,
}
use service_template.Http.Writer.{
  Response, Writer, plain, logging, decide_status, write_body, add_field, set_field, write_header,
  on_response, write, response, status_code,
}

-- A call of a method of the writer.
pub data Call : Type 0 where
  call_write_header : ℕ → Call
  call_write : String → Call
  call_set : (name value : String) → Call
  call_add : (name value : String) → Call

unfoldable pub run_call : Call → Writer → Writer × Bool
run_call (call_write_header code) w = write_header code w
run_call (call_write bytes) w = (write bytes w, false)
run_call (call_set name value) w = (on_response (set_field name value) w, false)
run_call (call_add name value) w = (on_response (add_field name value) w, false)

-- The calls in order, up to one that panics, and whether one did.
unfoldable pub run_calls : List Call → Writer → Writer × Bool
run_calls [] w = (w, false)
run_calls (c ∷ calls) w =
    let one = run_call c w in let more = run_calls calls one.0 in if one.1 then one else more

-- The same on the response alone.
abbrev pub answer_call : Call → Response → Response × Bool
answer_call (call_write_header code) r = decide_status code r
answer_call (call_write bytes) r = (write_body bytes r, false)
answer_call (call_set name value) r = (set_field name value r, false)
answer_call (call_add name value) r = (add_field name value r, false)

abbrev pub answer_calls : List Call → Response → Response × Bool
answer_calls [] r = (r, false)
answer_calls (c ∷ calls) r =
    let one = answer_call c r in let more = answer_calls calls one.0 in if one.1 then one else more

-- The code of the last call of `WriteHeader` that is made, from the one before.
abbrev pub last_code : List Call → Response → ℕ → ℕ
last_code [] r old = old
last_code (call_write_header code ∷ calls) r old =
    let more = last_code calls (decide_status code r).0 code in
    if (decide_status code r).1 then code else more
last_code (call_write bytes ∷ calls) r old = last_code calls (write_body bytes r) old
last_code (call_set name value ∷ calls) r old = last_code calls (set_field name value r) old
last_code (call_add name value ∷ calls) r old = last_code calls (add_field name value r) old

pub response-on_response :
    (f : Response → Response) (w : Writer) → response (on_response f w) ≡ f (response w)
unfolding response on_response
response-on_response f (plain r) = refl
response-on_response f (logging w code) = response-on_response f w

-- What is seen of a call of a writer's method.
abbrev pub seen : Writer × Bool → Response × Bool
seen p = (response p.0, p.1)

pub seen-write_header :
    (code : ℕ) (w : Writer) → seen (write_header code w) ≡ decide_status code (response w)
unfolding response write_header
seen-write_header code (plain r) = refl
seen-write_header code (logging w old) = seen-write_header code w

seen-run_call : (c : Call) (w : Writer) → seen (run_call c w) ≡ answer_call c (response w)
unfolding run_call write
seen-run_call (call_write_header code) w = seen-write_header code w
seen-run_call (call_write bytes) w = rw (response-on_response (write_body bytes) w)
seen-run_call (call_set name value) w = rw (response-on_response (set_field name value) w)
seen-run_call (call_add name value) w = rw (response-on_response (add_field name value) w)

-- Through any writer, the response sees the same calls.
pub seen-run_calls :
    (calls : List Call) (w : Writer) → seen (run_calls calls w) ≡ answer_calls calls (response w)
unfolding run_calls
seen-run_calls [] w = refl
seen-run_calls (c ∷ calls) w =
    let one = seen-run_call c w in
    if-agree seen (run_call c w).1 (answer_call c (response w)).1 (ap (λ p. p.1) one) one
      (seen-run_calls calls (run_call c w).0 ∙ ap (λ p. answer_calls calls p.0) one)

-- A `loggingResponseWriter` has the code of the last call of `WriteHeader`.
pub status_code-run_calls :
    (calls : List Call) (w : Writer) (old : ℕ)
    → status_code (run_calls calls (logging w old)).0 ≡ last_code calls (response w) old
unfolding run_calls run_call write write_header status_code on_response
status_code-run_calls [] w old = refl
status_code-run_calls (call_write_header code ∷ calls) w old =
    let one = seen-write_header code w in
    if-agree (λ (p : Writer × Bool). status_code p.0) (write_header code w).1
      (decide_status code (response w)).1 (ap (λ p. p.1) one) refl
      (status_code-run_calls calls (write_header code w).0 code
        ∙ ap (λ p. last_code calls p.0 code) one)
status_code-run_calls (call_write bytes ∷ calls) w old =
    status_code-run_calls calls (on_response (write_body bytes) w) old
    ∙ ap (λ r. last_code calls r old) (response-on_response (write_body bytes) w)
status_code-run_calls (call_set name value ∷ calls) w old =
    status_code-run_calls calls (on_response (set_field name value) w) old
    ∙ ap (λ r. last_code calls r old) (response-on_response (set_field name value) w)
status_code-run_calls (call_add name value ∷ calls) w old =
    status_code-run_calls calls (on_response (add_field name value) w) old
    ∙ ap (λ r. last_code calls r old) (response-on_response (add_field name value) w)
