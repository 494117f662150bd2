-- ===== src/Report/YearStatement.antt =====
-- The year's statement in `sec_closing` of docs/accounting/reference-books/build.py: every income and
-- expense head's total for the year, and the result.
use rukka_folio.Prelude.{
  ℕ, ◌==◌, true, false, List, [], ◌∷◌, ◌++◌, if◌then◌else◌, length, map, ℤ, pos, neg, ◌-ℤ◌, leb_ℤ,
  abs, max_ℤ, sum_by, keep, Text, txt, cat, str_of, some,
}
use rukka_folio.Dates.{fy_end}
use rukka_folio.Money.{fmt, fmt_zero, em_dash}
use rukka_folio.Kinds.{income, expense, is_kind}
use rukka_folio.Book.{Account, Book, Style, business, property, household, npo}
use rukka_folio.Report.Markdown.{Page, l, r, table, bold, head_line}
use rukka_folio.Report.Position.{foot_notes, result_word}

-- `ti` and `te`.
unfoldable pub year_income : List Account → ℤ
year_income accounts = sum_by (λ a. neg a.closing) (keep (λ a. is_kind a.kind income) accounts)

unfoldable pub year_expense : List Account → ℤ
year_expense accounts = sum_by (λ a. a.closing) (keep (λ a. is_kind a.kind expense) accounts)

unfoldable pub year_result : List Account → ℤ
unfolding year_income year_expense
year_result accounts = year_income accounts -ℤ year_expense accounts

-- The words of the result, for a profit and for a loss; `k` is the number of the year close.
unfoldable pub closing_words : Style → ℕ → Text × Text
unfolding str_of txt
closing_words business k = (
  cat (txt "Net profit — closed to own money (4." ∷ str_of k ∷ txt ")" ∷ []),
  cat (txt "Net loss — taken from own money (4." ∷ str_of k ∷ txt ")" ∷ []),
)
closing_words property k = (
  cat (txt "Net profit — closed to own money (4." ∷ str_of k ∷ txt ")" ∷ []),
  cat (txt "Net loss — taken from own money (4." ∷ str_of k ∷ txt ")" ∷ []),
)
closing_words household k = (
  cat (txt "Saving for the year — closed to own money (4." ∷ str_of k ∷ txt ")" ∷ []),
  cat (txt "Spent more than came in — taken from own money (4." ∷ str_of k ∷ txt ")" ∷ []),
)
closing_words npo k = (
  cat (
      txt "Surplus (income more than spent) — closed to the General Fund (4."
      ∷ str_of k
      ∷ txt ")"
      ∷ []),
  cat (
      txt "Deficit (spent more than income) — taken from the General Fund (4."
      ∷ str_of k
      ∷ txt ")"
      ∷ []),
)

-- The words of a partnership; `k` is the number of its appropriation.
unfoldable pub partner_words : ℕ → Text × Text
unfolding str_of txt
partner_words k = (
  cat (txt "Net profit — carried to the P&L Appropriation (4." ∷ str_of k ∷ txt ")" ∷ []),
  cat (txt "Net loss — carried to the P&L Appropriation (4." ∷ str_of k ∷ txt ")" ∷ []),
)

unfoldable pub year_words : Book → ℕ → ℕ → Text × Text
unfolding closing_words partner_words
year_words b n_appr n_close =
    if length b.partners == 0 then closing_words b.style n_close else partner_words n_appr

unfoldable pub expense_rows : List Account → List (List Text)
unfolding str_of fmt_zero txt
expense_rows accounts =
    map (λ a. (txt "To " ++ a.name) ∷ str_of (length a.rows) ∷ fmt_zero a.closing ∷ em_dash ∷ [])
      (keep (λ a. is_kind a.kind expense) accounts)

unfoldable pub income_rows : List Account → List (List Text)
unfolding str_of fmt_zero txt
income_rows accounts =
    map
      (λ a.
        (txt "By " ++ a.name) ∷ str_of (length a.rows) ∷ em_dash ∷ fmt_zero (neg a.closing) ∷ [])
      (keep (λ a. is_kind a.kind income) accounts)

unfoldable pub result_row : Text × Text → ℤ → List Text
unfolding fmt_zero txt
result_row words result =
    if leb_ℤ (pos 0) result
    then (txt "To " ++ words.0) ∷ [] ∷ fmt_zero result ∷ em_dash ∷ []
    else (txt "By " ++ words.1) ∷ [] ∷ em_dash ∷ fmt_zero (neg result) ∷ []

unfoldable pub year_rows : Book → Text × Text → List (List Text)
unfolding year_income year_expense year_result expense_rows income_rows result_row bold fmt fmt_zero
    txt
year_rows b words =
    let ti = year_income b.accounts in
    let te = year_expense b.accounts in
    let total = bold (fmt (max_ℤ te ti)) in
    expense_rows b.accounts
    ++ income_rows b.accounts
    ++ ((bold (txt "Total of the heads for the year")
          ∷ []
          ∷ bold (fmt_zero te)
          ∷ bold (fmt_zero ti)
          ∷ [])
        ∷ result_row words (year_result b.accounts)
        ∷ (bold (txt "Total") ∷ [] ∷ total ∷ total ∷ [])
        ∷ [])

-- The statement, numbered `num`; `n_appr` and `n_close` are the numbers that its words refer to.
unfoldable pub sec_year : Book → ℕ → ℕ → ℕ → Page
unfolding year_rows year_words head_line table fmt_zero result_word foot_notes txt str_of
sec_year b num n_appr n_close =
    let result = year_result b.accounts in
    (cat (txt "#### 4." ∷ str_of num ∷ txt " " ∷ b.pl_title ∷ txt " for FY 2025-26" ∷ [])
      ∷ []
      ∷ head_line b.name (txt "FY 2025-26")
      ∷ []
      ∷ txt
          "Every income and expense account's **total for the year** — the *Total for the year* line of its ledger — with the number of entries that made it up. Only what was really received, spent or charged on credit during the year; nothing is added or spread at the year end."
      ∷ [])
    ++ (if length b.pl_note == 0 then [] else b.pl_note ∷ [])
    ++ ([] ∷ [])
    ++ table
        (txt "Particulars"
          ∷ txt "Entries"
          ∷ txt "Spent / expenses (Dr) ₹"
          ∷ txt "Income (Cr) ₹"
          ∷ [])
        (l ∷ r ∷ r ∷ r ∷ []) (year_rows b (year_words b n_appr n_close))
    ++ ([]
        ∷ cat (
            txt "**FY 2025-26: income ₹"
            ∷ fmt_zero (year_income b.accounts)
            ∷ txt " · spent ₹"
            ∷ fmt_zero (year_expense b.accounts)
            ∷ txt " · "
            ∷ result_word b.style result
            ∷ txt " ₹"
            ∷ fmt_zero (abs result)
            ∷ txt ".**"
            ∷ [])
        ∷ []
        ∷ [])
    ++ foot_notes b false true 0 (some fy_end)
