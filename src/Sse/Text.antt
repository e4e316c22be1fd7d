-- ===== src/Sse/Text.antt =====
-- What the two programs use of Go's strings, bufio and unicode: `TrimSpace`, `HasPrefix`, `Split` at a
-- newline and `ReadString` up to one.
pub mod Trim
use service_template.Base.{
  ℕ, Bool, true, false, ◌&&◌, ◌||◌, ltb, leb, ◌==◌, Runes, runes, List, [], ◌∷◌, ◌++◌, Option, none,
  some, if◌then◌else◌,
}

abbrev pub newline : ℕ
newline = 10

-- `unicode.IsSpace`
unfoldable pub is_space : ℕ → Bool
is_space r =
    (leb 9 r && leb r 13)
    || ((r == 32)
        || ((r == 133)
            || ((r == 160)
                || ((r == 5760)
                    || ((leb 8192 r && leb r 8202)
                        || ((r == 8232)
                            || ((r == 8233) || ((r == 8239) || ((r == 8287) || (r == 12288))))))))))

abbrev pub is_empty : Runes → Bool
is_empty [] = true
is_empty (c ∷ s) = false

abbrev pub trim_left : Runes → Runes
trim_left [] = []
trim_left (c ∷ s) = let rest = trim_left s in if is_space c then rest else c ∷ s

abbrev pub trim_right : Runes → Runes
trim_right [] = []
trim_right (c ∷ s) = let rest = trim_right s in if is_space c && is_empty rest then [] else c ∷ rest

-- `strings.TrimSpace`
abbrev pub trim_space : Runes → Runes
trim_space s = trim_right (trim_left s)

-- What follows a prefix, if the text begins with it.
abbrev pub cut_prefix : Runes → Runes → Option Runes
cut_prefix [] s = some s
cut_prefix (p ∷ ps) [] = none
cut_prefix (p ∷ ps) (c ∷ s) = let rest = cut_prefix ps s in if p == c then rest else none

-- `strings.Split` at each newline: the first line, and those behind it.
abbrev pub split_newlines : Runes → Runes × List Runes
split_newlines [] = ([], [])
split_newlines (c ∷ s) =
    let rest = split_newlines s in
    if c == newline then ([], rest.0 ∷ rest.1) else (c ∷ rest.0, rest.1)

abbrev pub split_lines : Runes → List Runes
split_lines s = (split_newlines s).0 ∷ (split_newlines s).1

-- `ReadString` of a newline: the line with it, and the rest, or nothing where there is none.
abbrev pub read_string : Runes → Option (Runes × Runes)
read_string [] = none
read_string (c ∷ s) =
    let rest = read_string s in
    if c == newline
    then some (c ∷ [], s)
    else elim rest [ none ↦ none | some l ↦ some (c ∷ l.0, l.1) ]
