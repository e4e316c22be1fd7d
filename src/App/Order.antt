-- ===== src/App/Order.antt =====
-- The order of priorities, and lists that are sorted by it.
use service_template.Base.{
  ◌≡◌, refl, true, false, ◌&&◌, List, [], ◌∷◌, ◌++◌, arith, if◌then◌else◌, ℤ, pos, negsuc,
}
use service_template.App.{int_le, Shutdown}

pub int_le_refl : (a : ℤ) → int_le a a ≡ true
unfolding int_le
int_le_refl (pos a) = ground arith
int_le_refl (negsuc a) = ground arith

pub int_le_trans : (a b c : ℤ) → int_le a b ≡ true → int_le b c ≡ true → int_le a c ≡ true
unfolding int_le
int_le_trans (pos a) b c p q = ground arith
int_le_trans (negsuc a) b c p q = ground arith

pub int_le_total : (a b : ℤ) → int_le a b ≡ false → int_le b a ≡ true
unfolding int_le
int_le_total (pos a) b p = ground arith
int_le_total (negsuc a) b p = ground arith

pub int_le_antisymm : (a b : ℤ) → int_le a b ≡ true → int_le b a ≡ true → a ≡ b
unfolding int_le
int_le_antisymm (pos a) b p q = ground arith
int_le_antisymm (negsuc a) b p q = ground arith

module _ {W : Type 0} where
  -- No entry of the list has a priority below `p`.
  abbrev pub From : ℤ → List (Shutdown W) → Type 0
  From p [] = Unit
  From p (n ∷ rest) = (int_le p n.priority ≡ true) × From p rest

  abbrev pub IsSorted : List (Shutdown W) → Type 0
  IsSorted [] = Unit
  IsSorted (n ∷ rest) = From n.priority rest × IsSorted rest

  pub From-trans : (p q : ℤ) (l : List (Shutdown W)) → int_le p q ≡ true → From q l → From p l
  From-trans p q [] h f = tt
  From-trans p q (n ∷ rest) h f = (int_le_trans p q n.priority h f.0, From-trans p q rest h f.1)

  -- The entries of one priority, in their order.
  abbrev pub of_priority : ℤ → List (Shutdown W) → List (Shutdown W)
  of_priority p [] = []
  of_priority p (n ∷ rest) =
      if int_le p n.priority && int_le n.priority p
      then n ∷ of_priority p rest
      else of_priority p rest

  pub of_priority-append :
      (p : ℤ) (l m : List (Shutdown W))
      → of_priority p (l ++ m) ≡ of_priority p l ++ of_priority p m
  of_priority-append p [] m = refl
  of_priority-append p (n ∷ l) m = ground (arith, of_priority-append p l m)

  -- A priority below all those of a list has no entry in it.
  pub of_priority-nil :
      (p q : ℤ) (l : List (Shutdown W)) → From q l → int_le q p ≡ false → of_priority p l ≡ []
  of_priority-nil p q [] f h = refl
  of_priority-nil p q (n ∷ l) f h =
      ground (arith, of_priority-nil p q l f.1 h, int_le_trans q n.priority p f.0)
