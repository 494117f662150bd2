-- ===== src/Report/Closing.antt =====
-- `sec_closing` and `render_book_sections` of docs/accounting/reference-books/build.py: which parts a
-- book prints, in which order, and how they are numbered.
pub mod Returns
use rukka_folio.Prelude.{
  ℕ, ◌+◌, Bool, true, false, not, List, [], ◌∷◌, ◌++◌, if◌then◌else◌, length, ◌==◌, some_of, ℤ,
  Text, txt, cat,
}
use rukka_folio.Kinds.{fund, is_kind}
use rukka_folio.Fault.{Result, ok, ◌>>=◌}
use rukka_folio.Book.{Book, Style, business, property, household, npo}
use rukka_folio.Report.Markdown.{Page}
use rukka_folio.Report.Chart.{sec_chart}
use rukka_folio.Report.Ledgers.{sec_ledgers}
use rukka_folio.Report.Statements.{sec_statements}
use rukka_folio.Report.Trial.{sec_trial}
use rukka_folio.Report.Receipts.{sec_npo_rp}
use rukka_folio.Report.YearStatement.{year_result, sec_year}
use rukka_folio.Report.CloseEntries.{sec_fund_statements, sec_close_entries}
use rukka_folio.Report.AppropriationPage.{sec_appropriation}
use rukka_folio.Report.BalanceSheet.{sec_balance_sheet}
use rukka_folio.Report.CarryForward.{sec_carry_forward}

abbrev pub is_npo : Style → Bool
is_npo npo = true
is_npo business = false
is_npo property = false
is_npo household = false

-- The parts that only some books have.
abbrev pub has_funds : Book → Bool
has_funds b = some_of (λ a. is_kind a.kind fund) b.accounts

abbrev pub has_partners : Book → Bool
has_partners b = not (length b.partners == 0)

-- `n_stmt`, `n_fund`, `n_appr`, `n_close`, `n_bs` and `n_cf`; a part that is left out has no number of
-- its own.
pub record Numbers : Type 0 where
  pub n_stmt : ℕ
  pub n_fund : ℕ
  pub n_appr : ℕ
  pub n_close : ℕ
  pub n_bs : ℕ
  pub n_cf : ℕ

unfoldable pub numbers : Book → Numbers
numbers b =
    let num = if is_npo b.style then 3 else 2 in
    let n_next = num + 1 + (if has_funds b then 1 else 0) in
    let n_close = n_next + (if has_partners b then 1 else 0) in
    record {
      n_stmt = num;
      n_fund = num + 1;
      n_appr = n_next;
      n_close = n_close;
      n_bs = n_close + 1;
      n_cf = n_close + 2;
    }

abbrev pub part_if : Bool → Result Page → Result Page
part_if true part = part
part_if false part = ok []

-- `sec_closing(b)`
unfoldable pub sec_closing : Book → Result Page
unfolding numbers sec_trial sec_npo_rp sec_year sec_fund_statements sec_appropriation
    sec_close_entries sec_balance_sheet sec_carry_forward year_result txt
sec_closing b = do
  let n = numbers b
  let result = year_result b.accounts
  trial ← sec_trial b
  receipts ← part_if (is_npo b.style) (sec_npo_rp b 2)
  let year = sec_year b n.n_stmt n.n_appr n.n_close
  funds ← part_if (has_funds b) (sec_fund_statements b n.n_fund)
  divided ← part_if (has_partners b) (sec_appropriation b result n.n_appr n.n_close)
  closes ← sec_close_entries b n.n_close
  sheet ← sec_balance_sheet b result n.n_bs
  carried ← sec_carry_forward b n.n_cf
  ok (
      (txt "### 4. Year end — FY 2025-26" ∷ [] ∷ [])
      ++ trial
      ++ receipts
      ++ year
      ++ funds
      ++ divided
      ++ closes
      ++ sheet
      ++ carried)

-- `render_book_sections(b)`
unfoldable pub render_book_sections : Book → Result Page
unfolding sec_chart sec_ledgers sec_statements sec_closing txt
render_book_sections b = do
  chart ← sec_chart b
  ledgers ← sec_ledgers b
  statements ← sec_statements b
  closing ← sec_closing b
  ok (
      (cat (txt "## Book: " ∷ b.name ∷ txt " — " ∷ b.kindword ∷ []) ∷ [] ∷ [])
      ++ (if length b.about == 0 then [] else b.about ∷ [] ∷ [])
      ++ chart
      ++ ledgers
      ++ statements
      ++ closing)
