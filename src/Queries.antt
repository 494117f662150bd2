-- ===== src/Queries.antt =====
-- The queries of `class Book` in docs/accounting/reference-books/build.py. A sum
-- over `self.order` goes over the accounts, each found under its own name.
pub mod Finalized
pub mod Posted
pub mod Periods
pub mod Totals
pub mod Trial
use rukka_folio.Prelude.{
  ℕ, Bool, true, false, ◌&&◌, List, [], ◌∷◌, leb, if◌then◌else◌, ℤ, pos, neg, ◌+ℤ◌, ◌-ℤ◌, sum_by,
  keep, Text, Option, none, some,
}
use rukka_folio.Dates.{Date, fy_start}
use rukka_folio.Kinds.{income, expense, is_kind, is_equity_kind}
use rukka_folio.Fault.{Result, ok, err, ◌>>=◌, or_key_error}
use rukka_folio.Book.{Account, Row, Book, find_account}

-- `balance_at` and `movement` of an account that is at hand.
unfoldable pub balance_on : Date → Account → ℤ
balance_on d a = a.opening +ℤ sum_by (λ r. r.dr -ℤ r.cr) (keep (λ r. leb r.date d) a.rows)

abbrev pub within : Date → Date → List Row → List Row
within s e = keep (λ r. leb s r.date && leb r.date e)

unfoldable pub movement_on : Date → Date → Account → ℤ × ℤ
movement_on s e a = (sum_by (λ r. r.dr) (within s e a.rows), sum_by (λ r. r.cr) (within s e a.rows))

unfoldable pub balance_at : Book → Text → Date → Result ℤ
unfolding balance_on find_account
balance_at b n d = do ok (balance_on d (← or_key_error (find_account n b.accounts)))

unfoldable pub movement : Book → Text → Date → Date → Result (ℤ × ℤ)
unfolding movement_on find_account
movement b n s e = do ok (movement_on s e (← or_key_error (find_account n b.accounts)))

-- `result_to(date)`: income and expense.
unfoldable pub result_to : Book → Date → ℤ × ℤ
unfolding balance_on
result_to b d = (
  sum_by (λ a. neg (balance_on d a)) (keep (λ a. is_kind a.kind income) b.accounts),
  sum_by (λ a. balance_on d a) (keep (λ a. is_kind a.kind expense) b.accounts),
)

-- `equity_parts(date)`: own money at the start, put in, and taken out.
unfoldable pub equity_parts : Book → Date → ℤ × ℤ × ℤ
unfolding movement_on is_equity_kind
equity_parts b d =
    let eq = keep (λ a. is_equity_kind a.kind) b.accounts in
    (
      neg (sum_by (λ a. a.opening) eq),
      sum_by (λ a. (movement_on fy_start d a).1) eq,
      sum_by (λ a. (movement_on fy_start d a).0) eq,
    )
