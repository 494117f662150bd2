-- ===== src/Report/CloseEntries.antt =====
-- `sec_close_entries` and `sec_fund_statements` of docs/accounting/reference-books/build.py.
use rukka_folio.Prelude.{
  ℕ, true, false, List, [], ◌∷◌, ◌++◌, if◌then◌else◌, length, ◌==◌, map, neg, sum_by, is_pos,
  is_neg, keep, some_of, Text, txt, cat, join, str_of,
}
use rukka_folio.Dates.{fdate, fy_start, fy_end}
use rukka_folio.Money.{fmt}
use rukka_folio.Kinds.{drawings, shareout, fund, is_kind}
use rukka_folio.Fault.{Result, ok, ◌>>=◌}
use rukka_folio.Book.{Account, Book, npo, business, property, household}
use rukka_folio.Close.{CloseEntry, close_entries, result_name, without_ac}
use rukka_folio.Close.Balances.{post_close_balances}
use rukka_folio.Report.Markdown.{Page, l, r, table, head_line, side_cell}
use rukka_folio.Report.LedgerTable.{Labels, ledger_table}

-- `own`: where the result goes.
unfoldable pub result_goes_to : Book → Text
unfolding txt
result_goes_to b = elim b.style [
  | npo ↦ txt "the General Fund"
  | business ↦ partners_or_own b
  | property ↦ partners_or_own b
  | household ↦ partners_or_own b
]
  where
    partners_or_own : Book → Text
    partners_or_own b =
        if length b.partners == 0
        then txt "own money"
        else txt "the partners' accounts, through the P&L Appropriation Account"

-- `dw`: what else is closed.
unfoldable pub drawn_words : Book → Text
unfolding join txt
drawn_words b = join (txt " and ") (
    (if some_of (λ a. is_kind a.kind drawings) b.accounts then txt "the drawings" ∷ [] else [])
    ++ (if some_of (λ a. is_kind a.kind shareout) b.accounts
        then txt "the business income shared out" ∷ []
        else []))

unfoldable pub close_intro : Book → Text
unfolding drawn_words result_goes_to result_name txt
close_intro b =
    let res = without_ac (result_name b.style) in
    let dw = drawn_words b in
    let none_drawn = length dw == 0 in
    cat (
      txt
        "Nobody types these. When the year is closed the book itself closes every income head and every expense head to **"
      ∷ res
      ∷ txt "**, and then the result"
      ∷ (if none_drawn then [] else txt " and " ++ dw)
      ∷ txt " to "
      ∷ result_goes_to b
      ∷ txt ". After them every income head, every expense head"
      ∷ (if none_drawn then [] else txt ", " ++ dw)
      ∷ txt " and "
      ∷ res
      ∷ txt " stand at nil, and the ledgers above show each entry on its last row."
      ∷ [])

unfoldable pub close_entry_row : CloseEntry → List Text
unfolding fdate side_cell fmt
close_entry_row e =
    let drs = keep (λ x. is_pos x.1) e.lines in
    let crs = map (λ x. (x.0, neg x.1)) (keep (λ x. is_neg x.1) e.lines) in
    e.id ∷ fdate fy_end ∷ e.note ∷ side_cell drs ∷ side_cell crs ∷ fmt (sum_by (λ x. x.1) drs) ∷ []

-- `sec_close_entries(b, num)`; its last statement runs the checks of `post_close_balances`.
unfoldable pub sec_close_entries : Book → ℕ → Result Page
unfolding close_entries close_intro close_entry_row head_line table fdate post_close_balances txt
    str_of
sec_close_entries b num = do
  es ← close_entries b
  pcb ← post_close_balances b
  ok (
      (cat (
          txt "#### 4."
          ∷ str_of num
          ∷ txt " Year close — the entries the book makes itself on "
          ∷ fdate fy_end
          ∷ [])
        ∷ []
        ∷ head_line b.name (txt "year ended " ++ fdate fy_end)
        ∷ []
        ∷ close_intro b
        ∷ []
        ∷ [])
      ++ table
          (txt "No."
            ∷ txt "Date"
            ∷ txt "What the book does"
            ∷ txt "Debit (Dr)"
            ∷ txt "Credit (Cr)"
            ∷ txt "Amount ₹"
            ∷ [])
          (l ∷ l ∷ l ∷ l ∷ l ∷ r ∷ []) (map close_entry_row es)
      ++ ([] ∷ []))

-- The labels of a fund's statement.
unfoldable pub fund_labels : Labels
unfolding txt
fund_labels = record {
  bf = txt "Opening balance b/f";
  cd = txt "Closing balance c/d";
  bd = [];
  total = txt "Total for the year";
  show_bd = false;
  narr = true;
}

unfoldable pub fund_pages : List Account → Result Page
unfolding ledger_table fund_labels txt
fund_pages [] = ok []
fund_pages (a ∷ rest) =
    let more = fund_pages rest in
    do
      p ← ledger_table a a.rows fy_start fy_end fund_labels []
      pages ← more
      ok (cat (txt "**" ∷ a.name ∷ txt "**" ∷ []) ∷ [] ∷ (p.out ++ ([] ∷ pages)))

-- `sec_fund_statements(b, num)`
unfoldable pub sec_fund_statements : Book → ℕ → Result Page
unfolding fund_pages head_line txt str_of
sec_fund_statements b num = do
  pages ← fund_pages (keep (λ a. is_kind a.kind fund) b.accounts)
  ok (
      (cat (txt "#### 4." ∷ str_of num ∷ txt " Each fund — its year" ∷ [])
        ∷ []
        ∷ head_line b.name (txt "FY 2025-26")
        ∷ []
        ∷ txt
            "A fund holds money given for one purpose. Gifts for it and the interest its deposit earns are added to it; what is spent for the purpose is charged to Income & Expenditure like any other cost, and the same amount is moved out of the fund as one action (*paid from the fund*), so the fund's own result stays nil. What is left is money held for that purpose, not free money."
        ∷ []
        ∷ [])
      ++ pages)
