-- ===== src/Money/Rounding.antt =====
-- `half_up` rounds to the nearest, halves up.
use rukka_folio.Prelude.{ℕ, ◌+◌, ◌*◌, ◌≤◌, ◌<◌, arith}
use rukka_folio.Money.{half_up}

-- For a denominator that is not 0, the rounded quotient q has q - 1/2 ≤ numer / denom < q + 1/2.
pub half_up_nearest :
    (numer denom : ℕ)
    → 0 < denom
    → (2 * denom * half_up numer denom ≤ 2 * numer + denom)
      × (2 * numer < 2 * denom * half_up numer denom + denom)
unfolding half_up
half_up_nearest numer denom h = grind arith
