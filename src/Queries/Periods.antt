-- ===== src/Queries/Periods.antt =====
-- A period's movements carry the balance from the day before it to its last day.
use rukka_folio.Prelude.{
  ◌+◌, ◌≤◌, ◌≡◌, leb, List, [], ◌∷◌, ◌+ℤ◌, ◌-ℤ◌, int_laws, sum_by, keep, arith, Bool-cases, inl,
  inr, true, false,
}
use rukka_folio.Dates.{Date}
use rukka_folio.Book.{Account, Row}
use rukka_folio.Queries.{balance_on, movement_on, within}

-- d is the day before the period, e its last day.
module _ (d e : Date) (order : d ≤ e) where
  after_day : (t : Date) → leb t d ≡ false → leb (d + 1) t ≡ true
  after_day t h = ground arith

  not_after_day : (t : Date) → leb t d ≡ true → leb (d + 1) t ≡ false
  not_after_day t h = ground arith

  up_to_end : (t : Date) → leb t d ≡ true → leb t e ≡ true
  up_to_end t h = ground arith

  rows_split :
      (rs : List Row)
      → sum_by (λ r. r.dr -ℤ r.cr) (keep (λ r. leb r.date e) rs)
        ≡ sum_by (λ r. r.dr -ℤ r.cr) (keep (λ r. leb r.date d) rs)
          +ℤ (sum_by (λ r. r.dr) (within (d + 1) e rs) -ℤ sum_by (λ r. r.cr) (within (d + 1) e rs))
  rows_split [] = omega int_laws
  rows_split (r ∷ rs) = elim (Bool-cases (leb r.date d)) [
    | inl h ↦ rw (h, up_to_end r.date h, not_after_day r.date h, rows_split rs) (omega int_laws)
    | inr h ↦ elim (Bool-cases (leb r.date e)) [
      | inl k ↦ rw (h, k, after_day r.date h, rows_split rs) (omega int_laws)
      | inr k ↦ rw (h, k, after_day r.date h) (rows_split rs)
    ]
  ]

  -- For days d up to e, the balance on e is the balance on d with the Dr movement of the days after
  -- d up to e added and their Cr movement taken off.
  pub balance_on-movement_on :
      (a : Account)
      → balance_on e a
        ≡ balance_on d a +ℤ ((movement_on (d + 1) e a).0 -ℤ (movement_on (d + 1) e a).1)
  unfolding balance_on movement_on
  balance_on-movement_on a = rw (rows_split a.rows) (omega int_laws)
