-- ===== src/Report/BalanceSheet.antt =====
-- `sec_balance_sheet` and `int_or` of docs/accounting/reference-books/build.py: the position after the
-- year close, with its two assertions on the own money and the one on the two sides.
pub mod Sheet
pub mod Partners
pub mod Sums
pub mod Agrees
pub mod Digits
pub mod Commas
pub mod ReadBack
use rukka_folio.Prelude.{
  ℕ, true, List, [], ◌∷◌, ◌++◌, if◌then◌else◌, length, ◌==◌, ℤ, pos, neg, ◌+ℤ◌, ◌-ℤ◌, eqb_ℤ, leb_ℤ,
  abs, sum_by, keep, Text, txt, cat, lower, str_of, some,
}
use rukka_folio.Dates.{fy_start, fy_end, fdate}
use rukka_folio.Money.{fmt_zero}
use rukka_folio.Kinds.{is_equity_kind}
use rukka_folio.Fault.{Result, ok, ◌>>=◌, ◌>>◌, guard, own_money_differs, balance_sheet_differs}
use rukka_folio.Book.{Account, Partner, Book}
use rukka_folio.Queries.{equity_parts}
use rukka_folio.Close.Balances.{Balances, balance_of, post_close_balances}
use rukka_folio.Report.Markdown.{Page, l, r, table, bold, head_line}
use rukka_folio.Report.Position.{foot_notes, result_word, shows_things_owned, shows_stakes}
use rukka_folio.Report.BalanceSheet.Sheet.{SheetSums, sheet_rows, empty_sheet}
use rukka_folio.Report.BalanceSheet.Partners.{PartnerSums, partner_part}

-- `start + put - taken + result`, of the year.
unfoldable pub own_close : Book → ℤ → ℤ
own_close b result =
    let (start, put, taken) = equity_parts b fy_end in start +ℤ put -ℤ taken +ℤ result

-- `-sum(pcb[n] for n in b.order if b.accounts[n].is_equity)`
unfoldable pub own_after : Balances → List Account → ℤ
unfolding is_equity_kind
own_after pcb accounts =
    neg (sum_by (λ a. balance_of a.name pcb) (keep (λ a. is_equity_kind a.kind) accounts))

-- The own money of a book with no partners.
unfoldable pub own_rows : Book → ℤ → List (List Text)
unfolding equity_parts own_close fmt_zero bold result_word txt
own_rows b result =
    let (start, put, taken) = equity_parts b fy_end in
    let label = b.own_word in
    ((label ++ txt " — at the start, 01 Apr 2025") ∷ fmt_zero start ∷ [])
    ∷ (cat (txt "Add: " ∷ lower b.put_word ∷ txt " during the year" ∷ b.put_note ∷ [])
        ∷ fmt_zero put
        ∷ [])
    ∷ (cat (txt "Less: " ∷ lower b.taken_word ∷ txt " during the year" ∷ b.taken_note ∷ [])
        ∷ fmt_zero taken
        ∷ [])
    ∷ (cat (
          (if leb_ℤ (pos 0) result then txt "Add" else txt "Less")
          ∷ txt ": "
          ∷ result_word b.style result
          ∷ txt " for the year"
          ∷ [])
        ∷ fmt_zero (abs result)
        ∷ [])
    ∷ (bold (label ++ txt " — at the end, 31 Mar 2026") ∷ bold (fmt_zero (own_close b result)) ∷ [])
    ∷ []

-- The tables of the two sides, and the notes.
unfoldable pub sides_page : Book → List (List Text) → SheetSums → ℤ → ℤ → Page
unfolding table bold fmt_zero foot_notes shows_things_owned shows_stakes txt
sides_page b eq s total_l ta =
    (cat (
        txt "**Own money"
        ∷ (if length s.fund == 0 then [] else txt ", funds")
        ∷ txt ", and what I will give**"
        ∷ [])
      ∷ []
      ∷ [])
    ++ table (txt "Particulars" ∷ txt "₹" ∷ []) (l ∷ r ∷ [])
        (eq ++ s.fund ++ s.liab ++ ((bold (txt "Total") ∷ bold (fmt_zero total_l) ∷ []) ∷ []))
    ++ ([] ∷ txt "**What I have and will get**" ∷ [] ∷ [])
    ++ table (txt "Particulars" ∷ txt "₹" ∷ []) (l ∷ r ∷ [])
        (s.asset ++ ((bold (txt "Total") ∷ bold (fmt_zero ta) ∷ []) ∷ []))
    ++ ([] ∷ cat (txt "**Both sides ₹" ∷ fmt_zero ta ∷ txt ". The books balance.**" ∷ []) ∷ [] ∷ [])
    ++ (if length b.assets_note == 0 then [] else b.assets_note ∷ [] ∷ [])
    ++ foot_notes b (shows_things_owned b fy_end) true (shows_stakes b fy_end) (some fy_end)

unfoldable pub sheet_head : Book → ℕ → Page
unfolding fdate head_line str_of txt
sheet_head b num =
    cat (txt "#### 4." ∷ str_of num ∷ txt " Full position on 31 Mar 2026 (Balance Sheet)" ∷ [])
    ∷ []
    ∷ head_line b.name (cat (txt "on " ∷ fdate fy_end ∷ txt ", after the year close" ∷ []))
    ∷ []
    ∷ []

-- The body: the rows of the own money with the partners' page, or without one.
unfoldable pub own_part : Book → ℤ → Balances → SheetSums → Result PartnerSums
unfolding own_rows partner_part own_close
own_part b result pcb s = elim b.partners [
  | [] ↦ ok (record { page = []; eq = own_rows b result; sheet = s; owed = pos 0 })
  | p ∷ ps ↦ partner_part b result (own_close b result) pcb s
]

unfoldable pub sheet_page : Book → ℤ → ℕ → PartnerSums → Page
unfolding sheet_head sides_page own_close
sheet_page b result num q =
    sheet_head b num
    ++ q.page
    ++ sides_page b q.eq q.sheet (q.sheet.tl +ℤ own_close b result +ℤ q.owed) q.sheet.ta

-- `sec_balance_sheet(b, result, num)`; `b.counts` keeps `own_close b result` and `result`.
unfoldable pub sec_balance_sheet : Book → ℤ → ℕ → Result Page
sec_balance_sheet b result num = do
  let s = sheet_rows b.accounts empty_sheet
  pcb ← post_close_balances b
  guard (eqb_ℤ (own_after pcb b.accounts) (own_close b result)) own_money_differs
  q ← own_part b result pcb s
  guard (eqb_ℤ (q.sheet.tl +ℤ own_close b result +ℤ q.owed) q.sheet.ta) balance_sheet_differs
  ok (sheet_page b result num q)
