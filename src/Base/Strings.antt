-- ===== src/Base/Strings.antt =====
-- Strings that `strcmp` finds equal.
use wsclient.Base.{ℕ, ◌≡◌, refl, ap₂, true, ◌==◌, List, [], ◌∷◌, arith, Bool-cases, inl, inr}
use wsclient.Base.Text.{same_bytes}

pub same_bytes-equal : (xs ys : List ℕ) → same_bytes xs ys ≡ true → xs ≡ ys
unfolding same_bytes
same_bytes-equal [] [] e = refl
same_bytes-equal [] (y ∷ ys) e = absurd (ground (arith, e))
same_bytes-equal (x ∷ xs) [] e = absurd (ground (arith, e))
same_bytes-equal (x ∷ xs) (y ∷ ys) e = elim (Bool-cases (x == y)) [
  | inl same ↦
      let rest : same_bytes xs ys ≡ true = ground (arith, e, same) in
      let first : x ≡ y = ground (arith, same) in
      ap₂ (λ a b. a ∷ b) first (same_bytes-equal xs ys rest)
  | inr other ↦ absurd (ground (arith, e, other))
]
