-- ===== src/Sse/Passes.antt =====
-- server/http_client.go: how the loop passes over lines, and what a line adds to the messages.
use service_template.Base.{
  ℕ, zero, suc, ◌<◌, ◌==◌, false, Runes, runes, String, List, [], ◌∷◌, ◌++◌, map, length,
  length-append, All, some, if◌then◌else◌, if-branches, ◌≡◌, refl, sym, ap, ◌∙◌, arith,
}
use mathlib.Core.List.{append_assoc, append-nil}
use mathlib.Core.Path.{subst}
use service_template.Sse.Text.{newline, is_space, is_empty, trim_space, split_newlines, read_string}
use service_template.Sse.Text.Trim.{trim_space-trim_right, trim_space-space}
use service_template.Sse.Server.{field_line, data_lines}
use service_template.Sse.Client.{on_line, listen}

-- No newline is in the text.
abbrev pub OneLine : Runes → Type 0
OneLine s = All (λ c. (c == newline) ≡ false) s

pub read_string-line :
    (l rest : Runes)
    → OneLine l
    → read_string (l ++ newline ∷ rest) ≡ some (l ++ newline ∷ [], rest)
read_string-line [] rest h = refl
read_string-line (c ∷ l) rest h = rw (h.0, read_string-line l rest h.1)

pub split_newlines-OneLine :
    (s : Runes) → OneLine (split_newlines s).0 × All OneLine (split_newlines s).1
split_newlines-OneLine [] = (tt, tt)
split_newlines-OneLine (c ∷ s) =
    let rest = split_newlines-OneLine s in
    if-branches (λ (p : Runes × List Runes). OneLine p.0 × All OneLine p.1) (c == newline)
      (λ h. (tt, rest)) (λ h. ((h, rest.0), rest.1))

-- The loop over the client's body passes from a text and some messages to what is left and more.
abbrev pub Passes : Runes → List Runes → Runes → List Runes → Type 0
Passes bytes messages rest more =
    (fuel turn : ℕ)
    → length bytes < fuel
    → (left : ℕ) × (turn' : ℕ) × (length rest < left)
      × (listen fuel turn (λ n. false) false bytes messages
          ≡ listen left turn' (λ n. false) false rest more)

pub Passes-refl : (bytes : Runes) (messages : List Runes) → Passes bytes messages bytes messages
Passes-refl bytes messages fuel turn h = (fuel, turn, h, refl)

pub Passes-trans :
    (bytes : Runes) (messages : List Runes) (mid : Runes) (ms : List Runes) (rest : Runes)
    (more : List Runes)
    → Passes bytes messages mid ms
    → Passes mid ms rest more
    → Passes bytes messages rest more
Passes-trans bytes messages mid ms rest more p q fuel turn h =
    let a = p fuel turn h in let b = q a.0 a.1 a.2 in (b.0, b.1, b.2, a.3 ∙ b.3)

pub listen-next :
    (fuel turn : ℕ) (bytes line rest : Runes) (messages : List Runes)
    → read_string bytes ≡ some (line, rest)
    → listen (suc fuel) turn (λ n. false) false bytes messages
      ≡ listen fuel (suc turn) (λ n. false) false rest (on_line line messages)
unfolding listen
listen-next fuel turn bytes line rest messages e = rw (listen, e)

pub Passes-line :
    (l rest : Runes) (messages : List Runes)
    → OneLine l
    → Passes (l ++ newline ∷ rest) messages rest (on_line (l ++ newline ∷ []) messages)
Passes-line l rest messages h zero turn e = absurd (omega (arith, e))
Passes-line l rest messages h (suc fuel) turn e = (
  fuel,
  suc turn,
  omega (arith, e, length-append l (newline ∷ rest)),
  listen-next fuel turn (l ++ newline ∷ rest) (l ++ newline ∷ []) rest messages
      (read_string-line l rest h),
)

pub on_line-data :
    (s : Runes) (messages : List Runes)
    → on_line (field_line "data: " s) messages ≡ messages ++ trim_space s ∷ []
unfolding on_line field_line is_space
on_line-data s messages =
    ap (λ t. messages ++ t ∷ []) (trim_space-trim_right (32 ∷ s) ∙ trim_space-space s)

pub on_line-event :
    (s : Runes) (messages : List Runes) → on_line (field_line "event: " s) messages ≡ messages
unfolding on_line field_line is_space
on_line-event s messages = refl

pub on_line-id :
    (s : Runes) (messages : List Runes) → on_line (field_line "id: " s) messages ≡ messages
unfolding on_line field_line is_space
on_line-id s messages = refl

pub on_line-blank : (messages : List Runes) → on_line (newline ∷ []) messages ≡ messages
unfolding on_line is_space
on_line-blank messages = refl

pub Passes-field :
    (name : String) (s rest : Runes) (messages : List Runes)
    → OneLine (runes name ++ s)
    → Passes (field_line name s ++ rest) messages rest (on_line (field_line name s) messages)
unfolding field_line
Passes-field name s rest messages h =
    subst (λ t. Passes t messages rest (on_line (runes name ++ s ++ newline ∷ []) messages))
      (sym (append_assoc (runes name ++ s) (newline ∷ []) rest))
      (Passes-line (runes name ++ s) rest messages h)

-- A field that is written where its value is not empty, and adds nothing to the messages.
pub Passes-optional :
    (name : String) (s rest : Runes) (messages : List Runes)
    → OneLine (runes name ++ s)
    → on_line (field_line name s) messages ≡ messages
    → Passes ((if is_empty s then [] else field_line name s) ++ rest) messages rest messages
Passes-optional name s rest messages h e =
    if-branches (λ t. Passes (t ++ rest) messages rest messages) (is_empty s)
      (λ b. Passes-refl rest messages)
      (λ b.
        subst (λ more. Passes (field_line name s ++ rest) messages rest more) e
          (Passes-field name s rest messages h))

pub OneLine-data : (s : Runes) → OneLine s → OneLine (runes "data: " ++ s)
OneLine-data s h = (refl, (refl, (refl, (refl, (refl, (refl, h))))))

pub Passes-data_lines :
    (ls : List Runes) (rest : Runes) (messages : List Runes)
    → All OneLine ls
    → Passes (data_lines ls ++ rest) messages rest (messages ++ map trim_space ls)
unfolding data_lines
Passes-data_lines [] rest messages h =
    subst (λ more. Passes rest messages rest more) (sym (append-nil messages))
      (Passes-refl rest messages)
Passes-data_lines (l ∷ ls) rest messages h =
    subst (λ t. Passes t messages rest (messages ++ trim_space l ∷ map trim_space ls))
      (sym (append_assoc (field_line "data: " l) (data_lines ls) rest))
      (Passes-trans (field_line "data: " l ++ (data_lines ls ++ rest)) messages
        (data_lines ls ++ rest) (messages ++ trim_space l ∷ []) rest
        (messages ++ trim_space l ∷ map trim_space ls)
        (subst
          (λ more.
            Passes (field_line "data: " l ++ (data_lines ls ++ rest)) messages
              (data_lines ls ++ rest) more)
          (on_line-data l messages)
          (Passes-field "data: " l (data_lines ls ++ rest) messages (OneLine-data l h.0)))
        (subst (λ more. Passes (data_lines ls ++ rest) (messages ++ trim_space l ∷ []) rest more)
          (append_assoc messages (trim_space l ∷ []) (map trim_space ls))
          (Passes-data_lines ls rest (messages ++ trim_space l ∷ []) h.1)))
