-- ===== src/Loadgen/Percentile.antt =====
-- The index of a percentile (pct of backend/cmd/loadgen/main.go).
use vegait.Prelude.{ℕ, zero, suc, ◌<◌, ◌≡◌, refl, List, [], ◌∷◌, some, ℤ, pos, ◌-ℤ◌, length, arith}
use vegait.Loadgen.{at, clamp, pct}

at-lt : (i : ℕ) (ds : List ℤ) → i < length ds → (d : ℤ) × (at i ds ≡ some d)
unfolding at
at-lt i [] h = absurd (omega arith)
at-lt zero (d ∷ ds) h = (d, refl)
at-lt (suc i) (d ∷ ds) h = at-lt i ds (omega arith)

pub clamp-lt : (ceiled : ℤ) (n : ℕ) → 0 < n → clamp ceiled n < n
unfolding clamp ◌-ℤ◌
clamp-lt ceiled n h = ground arith

-- pct never reads out of range, whatever the floating-point product rounds to: it gives an item of the
-- list, or 0 for an empty list. Where the product gives a rank from 1 to the length, it gives the item
-- of that rank.
pub pct-in_range :
    (ceiled : ℤ) (ds : List ℤ)
    → ((d : ℤ) × (pct ceiled ds ≡ some d))
      × ((rank : ℕ) → ceiled ≡ pos (suc rank) → rank < length ds → pct ceiled ds ≡ at rank ds)
unfolding pct clamp ◌-ℤ◌
pct-in_range ceiled [] = ((pos 0, refl), λ rank e h. absurd (omega arith))
pct-in_range ceiled (d ∷ ds) = (
  at-lt (clamp ceiled (length (d ∷ ds))) (d ∷ ds) (clamp-lt ceiled (length (d ∷ ds)) (omega arith)),
  λ rank e h. ground arith,
)
