-- ===== src/Report/Month.antt =====
-- One month of `sec_statements` of docs/accounting/reference-books/build.py: every account's balance
-- before the month, its two sides in the month, and its balance after.
pub mod Sides
use rukka_folio.Prelude.{
  ℕ, Bool, ◌+◌, ◌-◌, true, not, ◌&&◌, ◌||◌, List, [], ◌∷◌, ◌++◌, if◌then◌else◌, ℤ, pos, ◌+ℤ◌, ◌-ℤ◌,
  eqb_ℤ, is_nil, abs, sum_by, keep, some_of, Text, txt, cat, some,
}
use rukka_folio.Dates.{Date, D, fdate, month_name, month_end}
use rukka_folio.Money.{fmt, fmt_zero}
use rukka_folio.Kinds.{income, expense, fixed, is_kind}
use rukka_folio.Fault.{Result, ok, ◌>>=◌, ◌>>◌, guard, month_differs}
use rukka_folio.Book.{Account, Book}
use rukka_folio.Queries.{balance_on, movement_on}
use rukka_folio.Report.Markdown.{Page, l, r, c, table, bold, side_of, head_line}
use rukka_folio.Report.Position.{foot_notes, result_word}

-- The rows, and the totals of the two sides.
pub record MonthSums : Type 0 where
  pub rows : List (List Text)
  pub tdr : ℤ
  pub tcr : ℤ

unfoldable pub month_row : Text → ℤ → ℤ → ℤ → List Text
unfolding fmt fmt_zero side_of
month_row name ob dr cr =
    let cb = ob +ℤ dr -ℤ cr in
    name ∷ fmt_zero (abs ob) ∷ side_of ob ∷ fmt dr ∷ fmt cr ∷ fmt_zero (abs cb) ∷ side_of cb ∷ []

-- One round of the loop over the accounts; an account with nothing to show is left out.
unfoldable pub month_step : Date → Date → Account → MonthSums → MonthSums
month_step start end a s =
    let ob = balance_on (start - 1) a in
    let dr = (movement_on start end a).0 in
    let cr = (movement_on start end a).1 in
    if is_nil ob && (is_nil dr && is_nil cr) then s else record {
      rows = s.rows ++ (month_row a.name ob dr cr ∷ []);
      tdr = s.tdr +ℤ dr;
      tcr = s.tcr +ℤ cr;
    }

unfoldable pub month_rows : Date → Date → List Account → MonthSums → MonthSums
month_rows start end [] s = s
month_rows start end (a ∷ rest) s = month_rows start end rest (month_step start end a s)

abbrev pub month_sums : Book → Date → Date → MonthSums
month_sums b start end =
    month_rows start end b.accounts (record { rows = []; tdr = pos 0; tcr = pos 0 })

-- What the income heads took in and the expense heads cost in the month.
unfoldable pub month_income : Date → Date → List Account → ℤ
unfolding movement_on
month_income start end accounts =
    sum_by (λ a. (movement_on start end a).1 -ℤ (movement_on start end a).0)
      (keep (λ a. is_kind a.kind income) accounts)

unfoldable pub month_expense : Date → Date → List Account → ℤ
unfolding movement_on
month_expense start end accounts =
    sum_by (λ a. (movement_on start end a).0 -ℤ (movement_on start end a).1)
      (keep (λ a. is_kind a.kind expense) accounts)

unfoldable pub month_brief : Book → ℕ → ℕ → Date → Date → Text
unfolding month_income month_expense month_name fmt_zero result_word txt
month_brief b y m start end =
    let inc = month_income start end b.accounts in
    let exp = month_expense start end b.accounts in
    cat (
      txt "*"
      ∷ month_name y m
      ∷ txt " in brief: income ₹"
      ∷ fmt_zero inc
      ∷ txt " · spent ₹"
      ∷ fmt_zero exp
      ∷ txt " · "
      ∷ result_word b.style (inc -ℤ exp)
      ∷ txt " ₹"
      ∷ fmt_zero (abs (inc -ℤ exp))
      ∷ txt ".*"
      ∷ [])

-- Something that the book owns stood at the month's start, or moved in it.
unfoldable pub month_things : Date → Date → List Account → Bool
unfolding balance_on movement_on
month_things start end = some_of λ a.
    is_kind a.kind fixed
    && (not (is_nil (balance_on (start - 1) a))
        || not (is_nil (movement_on start end a).0 && is_nil (movement_on start end a).1))

unfoldable pub month_page : Book → ℕ → ℕ → Date → Date → MonthSums → Page
unfolding month_name fdate fmt_zero head_line table bold month_brief month_things foot_notes txt
month_page b y m start end s =
    (cat (txt "#### 3.3 One month — " ∷ month_name y m ∷ txt ", account by account" ∷ [])
      ∷ []
      ∷ head_line b.name (month_name y m)
      ∷ []
      ∷ cat (
          txt "Every account's balance on "
          ∷ fdate start
          ∷ txt ", what went on its Dr side and its Cr side during the month, and its balance on "
          ∷ fdate end
          ∷ txt ". The month's entries are in each account's ledger."
          ∷ [])
      ∷ []
      ∷ [])
    ++ table
        (txt "Account"
          ∷ cat (txt "Opening " ∷ fdate start ∷ txt " ₹" ∷ [])
          ∷ txt "Side"
          ∷ txt "Dr side in month ₹"
          ∷ txt "Cr side in month ₹"
          ∷ cat (txt "Closing " ∷ fdate end ∷ txt " ₹" ∷ [])
          ∷ txt "Side"
          ∷ [])
        (l ∷ r ∷ c ∷ r ∷ r ∷ r ∷ c ∷ [])
        (s.rows
          ++ ((bold (txt "Total of the month's entries")
                ∷ []
                ∷ []
                ∷ bold (fmt_zero s.tdr)
                ∷ bold (fmt_zero s.tcr)
                ∷ []
                ∷ []
                ∷ [])
              ∷ []))
    ++ ([] ∷ month_brief b y m start end ∷ [] ∷ [])
    ++ foot_notes b (month_things start end b.accounts) true 0 (some end)

-- Part 3.3, for the month m of the year y.
unfoldable pub sec_month : Book → ℕ → ℕ → Result Page
unfolding month_end D
sec_month b y m =
    let start = D y m 1 in
    let end = month_end y m in
    let s = month_sums b start end in
    guard (eqb_ℤ s.tdr s.tcr) month_differs >> ok (month_page b y m start end s)
