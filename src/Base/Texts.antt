-- ===== src/Base/Texts.antt =====
-- A text as the list of its runes.
use Prim.Native.Nat.{ℕ}
use Prim.Native.String.{String, [], ◌∷◌}
use Prim.Native.Char.{code}
use mathlib.Core.List.{List, [] as nil, ◌∷◌ as cons}

abbrev pub Runes : Type 0
Runes = List ℕ

abbrev pub runes : String → Runes
runes [] = nil
runes (c ∷ s) = cons (code c) (runes s)
