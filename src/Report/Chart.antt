-- ===== src/Report/Chart.antt =====
-- `sec_chart` of docs/accounting/reference-books/build.py: the chart of accounts, with the opening
-- balances and their totals.
pub mod Opens
use rukka_folio.Prelude.{
  ℕ, ◌+◌, ◌-◌, false, List, [], ◌∷◌, ◌++◌, ℤ, pos, ◌+ℤ◌, eqb_ℤ, dr_of, cr_of, Text, txt, cat,
  or_else, lower, str_of, none,
}
use rukka_folio.Dates.{fy_start, fdate}
use rukka_folio.Money.{fmt, fmt_zero}
use rukka_folio.Fault.{Result, ok, ◌>>=◌, ◌>>◌, guard, chart_differs}
use rukka_folio.Book.{Account, Book}
use rukka_folio.Report.Markdown.{Page, l, r, table, bold, head_line}
use rukka_folio.Report.Position.{shows_things_owned, foot_notes}

-- The rows, and the totals of the two columns.
pub record ChartSums : Type 0 where
  pub rows : List (List Text)
  pub tdr : ℤ
  pub tcr : ℤ

unfoldable pub chart_rows : ℕ → List Account → ChartSums → ChartSums
unfolding fmt str_of
chart_rows i [] s = s
chart_rows i (a ∷ rest) s =
    let row =
      str_of i ∷ a.name ∷ a.group ∷ a.label ∷ fmt (dr_of a.opening) ∷ fmt (cr_of a.opening) ∷ [] in
    chart_rows (i + 1) rest (record {
      rows = s.rows ++ (row ∷ []);
      tdr = s.tdr +ℤ dr_of a.opening;
      tcr = s.tcr +ℤ cr_of a.opening;
    })

unfoldable pub chart_intro : Book → Text
unfolding txt
chart_intro b = cat (
    txt
      "Every account used in FY 2025-26, with its balance on 01 Apr 2025 brought forward from last year. "
    ∷ or_else b.chart_note (
        cat (
          txt "The "
          ∷ lower b.own_word
          ∷ txt " opening is the balancing figure, so the Dr and Cr totals agree."
          ∷ []))
    ∷ txt " Income and expense accounts start the year at zero."
    ∷ [])

abbrev pub chart_sums : Book → ChartSums
chart_sums b = chart_rows 1 b.accounts (record { rows = []; tdr = pos 0; tcr = pos 0 })

unfoldable pub chart_page : Book → ChartSums → Page
unfolding chart_intro fdate fmt_zero head_line table bold foot_notes shows_things_owned txt
chart_page b s =
    (txt "### 1. Accounts and opening balances"
      ∷ []
      ∷ head_line b.name (txt "opening balances on " ++ fdate fy_start)
      ∷ []
      ∷ chart_intro b
      ∷ []
      ∷ [])
    ++ table
        (txt "#"
          ∷ txt "Account"
          ∷ txt "Type"
          ∷ txt "What it is"
          ∷ txt "Opening balance (Dr) ₹"
          ∷ txt "Opening balance (Cr) ₹"
          ∷ [])
        (r ∷ l ∷ l ∷ l ∷ r ∷ r ∷ [])
        (s.rows
          ++ (([]
                ∷ bold (txt "Total of opening balances")
                ∷ []
                ∷ []
                ∷ bold (fmt_zero s.tdr)
                ∷ bold (fmt_zero s.tcr)
                ∷ [])
              ∷ []))
    ++ ([] ∷ [])
    ++ foot_notes b (shows_things_owned b (fy_start - 1)) false 0 none

-- `sec_chart(b)`
unfoldable pub sec_chart : Book → Result Page
sec_chart b = let s = chart_sums b in guard (eqb_ℤ s.tdr s.tcr) chart_differs >> ok (chart_page b s)
