-- ===== src/Sse/Text/Trim.antt =====
-- `TrimSpace` on a text with space at its ends.
use service_template.Base.{
  Runes, ℕ, true, false, [], ◌∷◌, ◌++◌, ◌≡◌, refl, ap, ◌∙◌, sym, if-true, if-false, inl, inr,
  Bool-cases,
}
use mathlib.Core.Bool.{false≢true}
use service_template.Sse.Text.{newline, is_space, is_empty, trim_left, trim_right, trim_space}

trim_right-last : (s : Runes) → trim_right (s ++ newline ∷ []) ≡ trim_right s
unfolding is_space
trim_right-last [] = refl
trim_right-last (c ∷ s) = rw (trim_right-last s)

nil-is_empty : (s : Runes) → is_empty s ≡ true → s ≡ []
nil-is_empty [] e = refl
nil-is_empty (c ∷ s) e = absurd (false≢true e)

trim_left-space : (c : ℕ) (s : Runes) → is_space c ≡ true → trim_left (c ∷ s) ≡ trim_left s
trim_left-space c s h = if-true (is_space c) (c ∷ s) h

trim_left-other : (c : ℕ) (s : Runes) → is_space c ≡ false → trim_left (c ∷ s) ≡ c ∷ s
trim_left-other c s h = if-false (is_space c) (trim_left s) h

trim_right-other : (c : ℕ) (s : Runes) → is_space c ≡ false → trim_right (c ∷ s) ≡ c ∷ trim_right s
trim_right-other c s h = rw h

trim_right-kept :
    (c : ℕ) (s : Runes)
    → is_space c ≡ true
    → is_empty (trim_right s) ≡ false
    → trim_right (c ∷ s) ≡ c ∷ trim_right s
trim_right-kept c s h e = rw (h, e)

trim_right-gone :
    (c : ℕ) (s : Runes)
    → is_space c ≡ true
    → is_empty (trim_right s) ≡ true
    → trim_right (c ∷ s) ≡ []
trim_right-gone c s h e = rw (h, e)

trim_left-trim_right : (s : Runes) → trim_left (trim_right s) ≡ trim_right (trim_left s)
trim_left-trim_right [] = refl
trim_left-trim_right (c ∷ s) =
    let same = trim_left-trim_right s in
    elim (Bool-cases (is_space c)) [
      | inl h ↦ elim (Bool-cases (is_empty (trim_right s))) [
        | inl e ↦
            ap trim_left (trim_right-gone c s h e ∙ sym (nil-is_empty (trim_right s) e))
            ∙ same
            ∙ ap trim_right (sym (trim_left-space c s h))
        | inr e ↦
            ap trim_left (trim_right-kept c s h e)
            ∙ trim_left-space c (trim_right s) h
            ∙ same
            ∙ ap trim_right (sym (trim_left-space c s h))
      ]
      | inr h ↦
          ap trim_left (trim_right-other c s h)
          ∙ trim_left-other c (trim_right s) h
          ∙ sym (trim_right-other c s h)
          ∙ ap trim_right (sym (trim_left-other c s h))
    ]

trim_right-trim_right : (s : Runes) → trim_right (trim_right s) ≡ trim_right s
trim_right-trim_right [] = refl
trim_right-trim_right (c ∷ s) =
    let same = trim_right-trim_right s in
    elim (Bool-cases (is_space c)) [
      | inl h ↦ elim (Bool-cases (is_empty (trim_right s))) [
        | inl e ↦ ap trim_right (trim_right-gone c s h e) ∙ sym (trim_right-gone c s h e)
        | inr e ↦
            ap trim_right (trim_right-kept c s h e)
            ∙ trim_right-kept c (trim_right s) h (ap is_empty same ∙ e)
            ∙ ap (λ t. c ∷ t) same
            ∙ sym (trim_right-kept c s h e)
      ]
      | inr h ↦
          ap trim_right (trim_right-other c s h)
          ∙ trim_right-other c (trim_right s) h
          ∙ ap (λ t. c ∷ t) same
          ∙ sym (trim_right-other c s h)
    ]

-- What is left of a line behind `data:`, once it was trimmed with the line and then alone.
pub trim_space-trim_right : (s : Runes) → trim_space (trim_right (s ++ newline ∷ [])) ≡ trim_space s
trim_space-trim_right s =
    ap trim_space (trim_right-last s)
    ∙ ap trim_right (trim_left-trim_right s)
    ∙ trim_right-trim_right (trim_left s)

pub trim_space-space : (s : Runes) → trim_space (32 ∷ s) ≡ trim_space s
unfolding is_space
trim_space-space s = refl
