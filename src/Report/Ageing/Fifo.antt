-- ===== src/Report/Ageing/Fifo.antt =====
-- Settling the oldest first keeps the balance, and leaves open items of one side.
use rukka_folio.Prelude.{
  ◌≡◌, refl, ◌∙◌, ℕ, zero, suc, ◌+◌, ◌<◌, true, false, not, ◌||◌, Bool-cases, inl, inr, List, [],
  ◌∷◌, ltb, ℤ, pos, neg, ◌+ℤ◌, ◌-ℤ◌, int_laws, is_nil, sum_by, sum_by-append, length, All, arith,
}
use rukka_folio.Dates.{Date, fy_end}
use rukka_folio.Book.{Account, Row}
use rukka_folio.Report.Ageing.{
  Items, open_total, taken, toward_nil, settled, settle_items, open_rest, fifo_row, fifo_rows,
  fifo_open_items, AgeingRow, ageing_row, ageing_rows,
}
use rukka_folio.Entry.Known.{is_nil→eq}
use rukka_folio.Queries.{balance_on}
use rukka_folio.Queries.Trial.{UpTo, keep-UpTo}
use rukka_folio.Fault.{ok}
use rukka_folio.Kinds.{party, is_kind}
use rukka_folio.Prelude.{eqb_ℤ}

-- What an item loses, the amount loses too.
toward-total :
    (amt x : ℤ)
    → settled amt x ≡ false
    → toward_nil (taken amt x) amt +ℤ toward_nil (taken amt x) x ≡ amt +ℤ x
unfolding ◌+ℤ◌ neg
toward-total amt x h = ground arith

settle_items-total :
    (fuel : ℕ) (amt : ℤ) (items : Items)
    → (settle_items fuel amt items).0 +ℤ open_total (settle_items fuel amt items).1
      ≡ amt +ℤ open_total items
unfolding settle_items
settle_items-total zero amt items = refl
settle_items-total (suc fuel) amt [] = refl
settle_items-total (suc fuel) amt ((d, x) ∷ items) = elim (Bool-cases (settled amt x)) [
  | inl s ↦ rw s
  | inr s ↦
      let t = taken amt x in
      let e = toward-total amt x s in
      elim (Bool-cases (is_nil (toward_nil t x))) [
        | inl n ↦
            let z : toward_nil t x ≡ pos 0 = is_nil→eq (toward_nil t x) n in
            rw (s, n, settle_items-total fuel (toward_nil t amt) items) (omega (int_laws, e, z))
        | inr n ↦
            rw (s, n, settle_items-total fuel (toward_nil t amt) ((d, toward_nil t x) ∷ items))
              (omega (int_laws, e))
      ]
]

open_rest-total : (d : Date) (p : ℤ × Items) → open_total (open_rest d p) ≡ p.0 +ℤ open_total p.1
open_rest-total d (amt, items) = elim (Bool-cases (is_nil amt)) [
  | inl e ↦ rw (e, is_nil→eq amt e) (omega int_laws)
  | inr e ↦ rw (e, sum_by-append (λ (i : Date × ℤ). i.1) items ((d, amt) ∷ [])) (omega int_laws)
]

fifo_row-total :
    (d : Date) (amt : ℤ) (items : Items)
    → open_total (fifo_row d amt items) ≡ amt +ℤ open_total items
unfolding fifo_row
fifo_row-total d amt items =
    open_rest-total d (settle_items (length items + 2) amt items)
    ∙ settle_items-total (length items + 2) amt items

fifo_rows-total :
    (upto : Date) (rs : List Row) (items : Items)
    → UpTo upto rs
    → open_total (fifo_rows upto rs items) ≡ open_total items +ℤ sum_by (λ r. r.dr -ℤ r.cr) rs
unfolding fifo_rows
fifo_rows-total upto [] items h = omega int_laws
fifo_rows-total upto (r ∷ rs) items h =
    let on_time : ltb upto r.date ≡ false = ground arith in
    rw (on_time, fifo_rows-total upto rs _ h.1, fifo_row-total r.date (r.dr +ℤ neg r.cr) items)
      (omega int_laws)

-- The open items of an account add up to its balance, when no row is later.
pub fifo_open_items-total :
    (a : Account) (upto : Date)
    → UpTo upto a.rows
    → open_total (fifo_open_items a upto) ≡ balance_on upto a
unfolding fifo_open_items balance_on
fifo_open_items-total a upto h = elim (Bool-cases (is_nil a.opening)) [
  | inl e ↦ rw (e, keep-UpTo upto a.rows h, fifo_rows-total upto a.rows [] h, is_nil→eq a.opening e)
  | inr e ↦ rw (e, keep-UpTo upto a.rows h, fifo_rows-total upto a.rows _ h) (omega int_laws)
]

-- The loop has enough rounds: it ends with nothing left to settle, no item, or items of the same side.
abbrev pub Ended : ℤ × Items → Type 0
Ended (amt, []) = Unit
Ended (amt, (d, x) ∷ items) = settled amt x ≡ true

taken-ends :
    (amt x : ℤ)
    → settled amt x ≡ false
    → is_nil (toward_nil (taken amt x) x) ≡ false
    → is_nil (toward_nil (taken amt x) amt) ≡ true
unfolding ◌+ℤ◌ neg
taken-ends amt x h k = ground arith

nil-settled : (amt x : ℤ) → is_nil amt ≡ true → settled amt x ≡ true
nil-settled amt x h = ground arith

-- On fuel of two more than the number of open items, or more, the inner loop of `fifo_open_items`
-- ends by its own test: no item is left, the amount is used up, or the oldest item is on the
-- amount's side.
pub settle_items-Ended :
    (fuel : ℕ) (amt : ℤ) (items : Items)
    → length items + 1 < fuel
    → Ended (settle_items fuel amt items)
unfolding settle_items
settle_items-Ended zero amt items h = absurd (omega arith)
settle_items-Ended (suc fuel) amt [] h = tt
settle_items-Ended (suc zero) amt ((d, x) ∷ items) h = absurd (omega arith)
settle_items-Ended (suc (suc fuel)) amt ((d, x) ∷ items) h = elim (Bool-cases (settled amt x)) [
  | inl s ↦ rw s s
  | inr s ↦
      let t = taken amt x in
      elim (Bool-cases (is_nil (toward_nil t x))) [
        | inl n ↦ rw (s, n) (settle_items-Ended (suc fuel) (toward_nil t amt) items (omega arith))
        | inr n ↦
            let z = nil-settled (toward_nil t amt) (toward_nil t x) (taken-ends amt x s n) in
            rw (s, n, z) z
      ]
]

eqb_refl : (a d : ℤ) → a ≡ d → eqb_ℤ a d ≡ true
eqb_refl a d e = ground arith

-- For accounts with no row after the year's end, the loop of `sec_ageing` returns its rows: the
-- open items of every person add up to his balance, so that its assertion holds.
pub ageing_rows_returns :
    (accounts : List Account)
    → All (λ a. UpTo fy_end a.rows) accounts
    → (rows : List AgeingRow) × (ageing_rows accounts ≡ ok rows)
unfolding ageing_rows
ageing_rows_returns [] h = ([], refl)
ageing_rows_returns (a ∷ rest) h =
    let (rows, p) = ageing_rows_returns rest h.1 in
    let equal : eqb_ℤ (open_total (fifo_open_items a fy_end)) (balance_on fy_end a) ≡ true =
      eqb_refl _ _ (fifo_open_items-total a fy_end h.0) in
    elim (Bool-cases (not (is_kind a.kind party) || is_nil (balance_on fy_end a))) [
      | inl e ↦ (rows, rw e p)
      | inr e ↦ (ageing_row a ∷ rows, rw (e, equal, p))
    ]
