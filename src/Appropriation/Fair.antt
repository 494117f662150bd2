-- ===== src/Appropriation/Fair.antt =====
-- How far a share may stand from its exact ratio, and who takes the odd paise.
use rukka_folio.Prelude.{ℕ, zero, suc, ◌+◌, ◌-◌, ◌*◌, ◌/◌, ◌≤◌, ◌<◌, List, [], ◌∷◌, length, arith}
use rukka_folio.Appropriation.{sum_ℕ, floors, largest, add_at, shares_of}

floor_above : (rest weights w : ℕ) → 0 < weights → rest * w < weights * (rest * w / weights + 1)
floor_above rest weights w h = grind arith

floor_below : (rest weights w : ℕ) → weights * (rest * w / weights) ≤ rest * w
floor_below rest weights w = grind arith

floors_above :
    (rest weights : ℕ) (ws : List ℕ)
    → 0 < weights
    → rest * sum_ℕ ws ≤ weights * (sum_ℕ (floors rest weights ws) + length ws)
floors_above rest weights [] h = omega arith
floors_above rest weights (w ∷ ws) h =
    omega (arith, floors_above rest weights ws h, floor_above rest weights w h)

strict_cancel : (w a b : ℕ) → 0 < w → w * a ≤ w * b → a ≤ b
strict_cancel w a b h k = grind arith

-- The odd paise are at most one for each partner.
pub left-le :
    (rest : ℕ) (ws : List ℕ) → 0 < sum_ℕ ws → rest - sum_ℕ (floors rest (sum_ℕ ws) ws) ≤ length ws
left-le rest ws h =
    let W = sum_ℕ ws in
    let k : rest ≤ sum_ℕ (floors rest W ws) + length ws =
      strict_cancel W rest _ h (omega (arith, floors_above rest W ws h)) in
    omega arith

-- Each share is the exact ratio rounded down, or that and up to `spare` paise more.
abbrev pub Near : ℕ → ℕ → ℕ → List ℕ → List ℕ → Type 0
Near spare rest weights [] [] = Unit
Near spare rest weights [] (s ∷ ss) = ⊥
Near spare rest weights (w ∷ ws) [] = ⊥
Near spare rest weights (w ∷ ws) (s ∷ ss) =
    (rest * w < weights * (s + 1))
    × (weights * s ≤ rest * w + weights * spare)
    × Near spare rest weights ws ss

Near-floors :
    (spare rest weights : ℕ) (ws : List ℕ)
    → 0 < weights
    → Near spare rest weights ws (floors rest weights ws)
Near-floors spare rest weights [] h = tt
Near-floors spare rest weights (w ∷ ws) h = (
  floor_above rest weights w h,
  omega (arith, floor_below rest weights w),
  Near-floors spare rest weights ws h,
)

Near-add_at :
    (spare rest weights k left : ℕ) (ws : List ℕ)
    → 0 < weights
    → left ≤ spare
    → Near spare rest weights ws (add_at k left (floors rest weights ws))
unfolding add_at
Near-add_at spare rest weights k left [] h e = tt
Near-add_at spare rest weights zero left (w ∷ ws) h e = (
  grind (arith, floor_above rest weights w h),
  grind (arith, floor_below rest weights w),
  Near-floors spare rest weights ws h,
)
Near-add_at spare rest weights (suc k) left (w ∷ ws) h e = (
  floor_above rest weights w h,
  omega (arith, floor_below rest weights w),
  Near-add_at spare rest weights k left ws h e,
)

-- When the ratios are not all 0, each partner's share is less than one paisa below his exact part
-- of the rest, and above it by at most one paisa for each partner.
pub shares_of-Near :
    (rest : ℕ) (ws : List ℕ)
    → 0 < sum_ℕ ws
    → Near (length ws) rest (sum_ℕ ws) ws (shares_of rest ws)
unfolding shares_of
shares_of-Near rest ws h =
    Near-add_at (length ws) rest (sum_ℕ ws) (largest ws) _ ws h (left-le rest ws h)
