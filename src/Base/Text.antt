-- ===== src/Base/Text.antt =====
-- Tests on texts, and Python's `text[:limit]`.
use Prim.Native.Nat.{ℕ, zero, suc, Ordering}
use Prim.Native.String.{String, [], ◌∷◌, compare}
use mathlib.Core.Path.{◌≡◌, refl}
use mathlib.Core.Bool.{Bool, true, false}
use text.Mathlib.TextEquality.{path_by_compare}

abbrev pub same_text : String → String → Bool
same_text a b = elim (compare a b) [ Ordering.eq ↦ true | _ ↦ false ]

abbrev pub prefix : ℕ → String → String
prefix zero s = []
prefix (suc n) [] = []
prefix (suc n) (c ∷ s) = c ∷ prefix n s

eq_order :
    (o : Ordering)
    → (elim o as (λ _. Bool) [ Ordering.eq ↦ true | _ ↦ false ]) ≡ true
    → o ≡ Ordering.eq
eq_order Ordering.lt h = cc
eq_order Ordering.eq h = refl
eq_order Ordering.gt h = cc

pub same_text-eq : (a b : String) → same_text a b ≡ true → a ≡ b
same_text-eq a b h = path_by_compare a b (eq_order (compare a b) h)
