-- ===== src/Sse/Wire.antt =====
-- cmd/sse_server/main.go: the runes that the writes of `sseHandler` come to, and the response that they leave.
use Prim.Native.String.{◌++◌ as str_append}
use Prim.Native.Char.{code}
use service_template.Base.{
  ℕ, Bool, true, false, ◌==◌, Bool-cases, inl, inr, String, str_eq, Runes, runes, List, [], ◌∷◌,
  ◌++◌, map, Option, some, none, if◌then◌else◌, ◌≡◌, refl, sym, ap, ◌∙◌, eq_iff, if-agree, ◌≢◌,
}
use text.Mathlib.TextLemmas.{nil-append, cons-append}
use mathlib.Core.List.{append_assoc, append-nil}
use service_template.Sse.Text.{newline, is_empty, split_newlines}
use service_template.Sse.Server.{field_line, data_lines, send_sse, send_all}
use service_template.Http.Writer.{Response, write_body}
use service_template.Http.Writer.Script.{call_write, answer_calls}
use service_template.Sse.Handler.{
  TextEvent, split_text, optional_field, data_fields, sse_writes, all_writes, to_event,
}

-- The runes of texts, one behind the other.
abbrev pub wire : List String → Runes
wire [] = []
wire (s ∷ ss) = runes s ++ wire ss

runes-append : (s t : String) → runes (str_append s t) ≡ runes s ++ runes t
runes-append String.[] t = ap runes (nil-append t)
runes-append (String.◌∷◌ c s) t =
    ap runes (cons-append c s t) ∙ ap (λ r. code c ∷ r) (runes-append s t)

wire-append : (ss ts : List String) → wire (ss ++ ts) ≡ wire ss ++ wire ts
wire-append [] ts = refl
wire-append (s ∷ ss) ts = rw (wire-append ss ts, append_assoc)

split_text-runes :
    (s : String)
    → (runes (split_text s).0 ≡ (split_newlines (runes s)).0)
      × (map runes (split_text s).1 ≡ (split_newlines (runes s)).1)
unfolding split_text
split_text-runes String.[] = (refl, refl)
split_text-runes (String.◌∷◌ c s) = at_test (code c == newline) (split_text-runes s)
  where
    at_test :
        (b : Bool)
        → (runes (split_text s).0 ≡ (split_newlines (runes s)).0)
          × (map runes (split_text s).1 ≡ (split_newlines (runes s)).1)
        → let t : String × List String =
            if b
            then ("", (split_text s).0 ∷ (split_text s).1)
            else (String.◌∷◌ c (split_text s).0, (split_text s).1) in
          let u : Runes × List Runes =
            if b
            then ([], (split_newlines (runes s)).0 ∷ (split_newlines (runes s)).1)
            else (code c ∷ (split_newlines (runes s)).0, (split_newlines (runes s)).1) in
          (runes t.0 ≡ u.0) × (map runes t.1 ≡ u.1)
    at_test true ih = (
      refl,
      ap (λ r. r ∷ map runes (split_text s).1) ih.0
          ∙ ap (λ rs. (split_newlines (runes s)).0 ∷ rs) ih.1,
    )
    at_test false ih = (ap (λ r. code c ∷ r) ih.0, ih.1)

field-runes :
    (name value : String)
    → runes (str_append name (str_append value "\n")) ≡ field_line name (runes value)
unfolding field_line
field-runes name value =
    runes-append name (str_append value "\n")
    ∙ ap (λ r. runes name ++ r) (runes-append value "\n")
    ∙ sym (append_assoc (runes name) (runes value) (newline ∷ []))

runes-nil : (s : String) → str_eq s "" ≡ is_empty (runes s)
runes-nil String.[] = refl
runes-nil (String.◌∷◌ c s) = elim (Bool-cases (str_eq (String.◌∷◌ c s) "")) [
  | inl e ↦ absurd (not-nil (ap runes ((eq_iff (String.◌∷◌ c s) "").0 e)))
  | inr e ↦ e
]
  where
    not-nil : code c ∷ runes s ≢ []
    not-nil e = cc

optional_field-runes :
    (name value : String)
    → wire (optional_field name value)
      ≡ (if is_empty (runes value) then [] else field_line name (runes value))
unfolding optional_field
optional_field-runes name value =
    if-agree wire (str_eq value "") (is_empty (runes value)) (runes-nil value) refl
      (append-nil _ ∙ field-runes name value)

data_fields-runes : (lines : List String) → wire (data_fields lines) ≡ data_lines (map runes lines)
unfolding data_fields data_lines
data_fields-runes [] = refl
data_fields-runes (line ∷ lines) =
    ap (λ r. r ++ wire (data_fields lines)) (field-runes "data: " line)
    ∙ ap (λ r. field_line "data: " (runes line) ++ r) (data_fields-runes lines)

sse_writes-runes : (e : TextEvent) → wire (sse_writes e) ≡ send_sse (to_event e)
unfolding sse_writes send_sse
sse_writes-runes e =
    let lines = split_text e.text in
    let both = split_text-runes e.text in
    let three =
      optional_field "event: " e.event
      ++ optional_field "id: " e.id
      ++ data_fields (lines.0 ∷ lines.1) in
    wire-append three ("\n" ∷ [])
    ∙ ap (λ r. r ++ newline ∷ [])
        (wire-append (optional_field "event: " e.event ++ optional_field "id: " e.id)
            (data_fields (lines.0 ∷ lines.1))
          ∙ rw (
            wire-append (optional_field "event: " e.event) (optional_field "id: " e.id),
            optional_field-runes "event: " e.event,
            optional_field-runes "id: " e.id,
            data_fields-runes (lines.0 ∷ lines.1),
            both.0,
            both.1,
          ))

pub all_writes-runes :
    (events : List TextEvent) → wire (all_writes events) ≡ send_all (map to_event events)
unfolding all_writes send_all
all_writes-runes [] = refl
all_writes-runes (e ∷ events) =
    wire-append (sse_writes e) (all_writes events)
    ∙ ap (λ r. r ++ wire (all_writes events)) (sse_writes-runes e)
    ∙ ap (λ r. send_sse (to_event e) ++ r) (all_writes-runes events)

-- A response with more texts written to it.
abbrev pub put_all : List String → Response → Response
put_all [] r = r
put_all (s ∷ ss) r = put_all ss (write_body s r)

pub answer_calls-writes :
    (ss : List String) (r : Response) → answer_calls (map call_write ss) r ≡ (put_all ss r, false)
answer_calls-writes [] r = refl
answer_calls-writes (s ∷ ss) r = answer_calls-writes ss (write_body s r)

-- The status that is sent: net/http decides for 200 where nothing was.
abbrev pub final_status : Response → ℕ
final_status r = elim r.status [ none ↦ 200 | some status ↦ status ]

pub put_all-parts :
    (ss : List String) (r : Response)
    → final_status r ≡ 200
    → ((put_all ss r).body ≡ r.body ++ ss)
      × ((put_all ss r).headers ≡ r.headers)
      × (final_status (put_all ss r) ≡ 200)
unfolding write_body
put_all-parts [] r e = (sym (append-nil r.body), refl, e)
put_all-parts (s ∷ ss) r e =
    let rest = put_all-parts ss (write_body s r) (decided r.status e) in
    (rest.0 ∙ append_assoc r.body (s ∷ []) ss, rest.1, rest.2)
  where
    decided :
        (o : Option ℕ)
        → elim o as (λ x. ℕ) [ none ↦ 200 | some c ↦ c ] ≡ 200
        → elim (elim o as (λ x. Option ℕ) [ none ↦ some 200 | some c ↦ some c ]) as (λ x. ℕ) [
          | none ↦ 200
          | some c ↦ c
        ]
          ≡ 200
    decided none e = refl
    decided (some c) e = e
