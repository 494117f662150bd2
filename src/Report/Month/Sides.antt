-- ===== src/Report/Month/Sides.antt =====
-- The two sides of a month agree.
use rukka_folio.Prelude.{
  ℕ, eq→eqb, ◌≡◌, ◌≤◌, ◌<◌, ◌+◌, ◌-◌, Bool-cases, inl, inr, sym, ap, ◌∙◌, arith, true, ◌&&◌, List,
  [], ◌∷◌, ℤ, pos, ◌+ℤ◌, ◌-ℤ◌, int_laws, is_nil, sum_by,
}
use rukka_folio.Dates.{Date, D, month_end}
use rukka_folio.Fault.{ok}
use rukka_folio.Book.{Account, Book}
use rukka_folio.Entry.{validate_vouchers}
use rukka_folio.Posting.{post}
use rukka_folio.Queries.{balance_on, movement_on}
use rukka_folio.Queries.Periods.{balance_on-movement_on}
use rukka_folio.Queries.Totals.{balances-opening_total}
use rukka_folio.Report.Month.{MonthSums, month_step, month_rows, month_sums, month_page, sec_month}

abbrev net_of : Date → Date → Account → ℤ
net_of start end a = (movement_on start end a).0 -ℤ (movement_on start end a).1

three_nil : (x y z : ℤ) → (is_nil x && (is_nil y && is_nil z)) ≡ true → y -ℤ z ≡ pos 0
unfolding ◌-ℤ◌
three_nil x y z h = ground arith

month_step-sides :
    (start end : Date) (a : Account) (s : MonthSums)
    → (month_step start end a s).tdr -ℤ (month_step start end a s).tcr
      ≡ s.tdr -ℤ s.tcr +ℤ net_of start end a
unfolding month_step
month_step-sides start end a s =
    let ob = balance_on (start - 1) a in
    let dr = (movement_on start end a).0 in
    let cr = (movement_on start end a).1 in
    elim (Bool-cases (is_nil ob && (is_nil dr && is_nil cr))) [
      | inl e ↦ rw (e, three_nil ob dr cr e) (omega int_laws)
      | inr e ↦ rw e (omega int_laws)
    ]

month_rows-sides :
    (start end : Date) (accounts : List Account) (s : MonthSums)
    → (month_rows start end accounts s).tdr -ℤ (month_rows start end accounts s).tcr
      ≡ s.tdr -ℤ s.tcr +ℤ sum_by (net_of start end) accounts
unfolding month_rows
month_rows-sides start end [] s = omega int_laws
month_rows-sides start end (a ∷ rest) s =
    rw (month_rows-sides start end rest) (omega (int_laws, month_step-sides start end a s))

-- The period's movements, from the balances at its two ends.
net-balances :
    (d e : Date)
    → d ≤ e
    → (accounts : List Account)
    → sum_by (net_of (d + 1) e) accounts
      ≡ sum_by (balance_on e) accounts -ℤ sum_by (balance_on d) accounts
net-balances d e h [] = omega int_laws
net-balances d e h (a ∷ rest) =
    omega (int_laws, net-balances d e h rest, balance_on-movement_on d e h a)

-- A month begins on a day of the calendar.
month_begun : (y m : ℕ) → 0 < y → 0 < m → 0 < D y m 1
unfolding D
month_begun y m year low = ground arith

-- It does not end more than a day before it begins, which is all that the sums need.
month_order : (y m : ℕ) → 0 < y → 0 < m → m ≤ 12 → D y m 1 ≤ month_end y m + 1
unfolding D month_end
month_order y m year low high = ground arith

-- When `post` returned a book whose entries passed `validate_vouchers`, part 3.3 of `sec_statements`
-- returns its page for every month, 1 to 12, of every year from 1 on: what went on the Dr sides is what
-- went on the Cr sides.
pub sec_month_returns :
    (b b' : Book) (y m : ℕ)
    → validate_vouchers b.accounts b.vouchers ≡ ok tt
    → post b ≡ ok b'
    → 0 < y
    → 0 < m
    → m ≤ 12
    → sec_month b' y m
      ≡ ok (month_page b' y m (D y m 1) (month_end y m) (month_sums b' (D y m 1) (month_end y m)))
unfolding sec_month
sec_month_returns b b' y m valid posted year low high =
    let start = D y m 1 in
    let end = month_end y m in
    let s = month_sums b' start end in
    let begun = month_begun y m year low in
    let order = month_order y m year low high in
    let day : start - 1 + 1 ≡ start = omega arith in
    let net : sum_by (net_of start end) b'.accounts ≡ pos 0 =
      ap (λ t. sum_by (net_of t end) b'.accounts) (sym day)
      ∙ net-balances (start - 1) end (omega arith) b'.accounts
      ∙ rw
          (
            balances-opening_total b b' end valid posted,
            balances-opening_total b b' (start - 1) valid posted,
          )
          (omega int_laws) in
    let sides =
      month_rows-sides start end b'.accounts (record { rows = []; tdr = pos 0; tcr = pos 0 }) in
    let agree : s.tdr ≡ s.tcr = omega (int_laws, sides, net) in rw (eq→eqb _ _ agree)
