-- ===== src/Report/Statement.antt =====
-- `statement_table`, `running_words` and `natural_line` of docs/accounting/reference-books/build.py:
-- the statement of one account for a period.
pub mod Closing
use rukka_folio.Prelude.{
  ◌+◌, ◌-◌, Bool, true, false, not, ◌&&◌, ◌||◌, List, [], ◌∷◌, ◌++◌, if◌then◌else◌, ℤ, pos, ◌+ℤ◌,
  ◌-ℤ◌, eqb_ℤ, abs, is_pos, is_nil, Text, txt, same, length, ◌==◌,
}
use rukka_folio.Dates.{Date, fdate}
use rukka_folio.Money.{fmt_zero, em_dash}
use rukka_folio.Kinds.{party, link, partner, pcurrent, card, cc, is_kind, in_kinds, kind_info}
use rukka_folio.Fault.{Result, ok, ◌>>=◌, ◌>>◌, guard, columns_differ}
use rukka_folio.Book.{Account, Row}
use rukka_folio.Close.{ClosePost}
use rukka_folio.Report.Markdown.{Page, l, r, c, table, row_line, bold, side_of}
use rukka_folio.Report.LedgerTable.{Sums, ledger_rows, close_rows, opening_of, start_sums}

-- `natural_line(a)`
unfoldable pub natural_line : Account → Text
unfolding kind_info txt
natural_line a =
    if is_kind a.kind party
    then txt "on the Dr side when they owe you, on the Cr side when you owe them"
    else if is_kind a.kind link
    then txt
        "on the Dr side when that book owes this one, on the Cr side when this book owes that one"
    else if is_kind a.kind pcurrent
    then txt
        "on the Cr side when the firm owes the partner, on the Dr side when the partner has taken more"
    else if in_kinds (card ∷ cc ∷ []) a.kind
    then txt "on the Cr side — what is owed to the bank"
    else txt "usually on the " ++ ((kind_info a.kind).natural ++ txt " side")

-- `running_words(acct, bal)`; no words are the empty text.
unfoldable pub running_words : Account → ℤ → Text
unfolding txt
running_words a bal =
    if not (is_kind a.kind partner)
      || (is_nil bal || not (same a.group (txt "Sub-family") || same a.group (txt "Joint family")))
    then []
    else if same a.group (txt "Sub-family")
    then (if is_pos bal then txt "against the household" else txt "in the household's favour")
    else (if is_pos bal then txt "against the family" else txt "in the family's favour")

-- The label of the closing balance.
unfoldable pub closing_label : Account → Date → Bool → ℤ → Text
unfolding running_words fdate txt
closing_label a end sent bal =
    let label = txt "Closing balance on " ++ fdate end in
    if sent && not (is_nil bal)
    then label
      ++ (txt " — "
          ++ (if is_pos bal then txt "Balance due from you" else txt "Balance due to you"))
    else if is_kind a.kind party && not (is_nil bal)
    then label ++ (txt " — " ++ (if is_pos bal then txt "You will get" else txt "You will give"))
    else if not (length (running_words a bal) == 0)
    then label ++ (txt " — " ++ running_words a bal)
    else label

-- The last line: the closing balance and its side.
unfoldable pub closing_line : Account → Date → Bool → ℤ → Text
unfolding closing_label fdate fmt_zero side_of row_line bold
closing_line a end sent bal = row_line (
    fdate end
    ∷ []
    ∷ bold (closing_label a end sent bal)
    ∷ []
    ∷ []
    ∷ bold (fmt_zero (abs bal))
    ∷ bold (side_of bal)
    ∷ [])

-- The head of the table, and the opening balance.
unfoldable pub statement_top : Account → Date → Bool → Page
unfolding opening_of fdate fmt_zero side_of row_line table txt
statement_top a start sent =
    table
      (txt "Date"
        ∷ txt "No."
        ∷ txt "Particulars"
        ∷ (if sent then txt "Naam (Dr) ₹" else a.dr_col)
        ∷ (if sent then txt "Jama (Cr) ₹" else a.cr_col)
        ∷ txt "Balance ₹"
        ∷ txt "Side"
        ∷ [])
      (l ∷ l ∷ l ∷ r ∷ r ∷ r ∷ c ∷ []) []
    ++ (row_line (
          fdate start
          ∷ []
          ∷ (txt "Opening balance on " ++ fdate start)
          ∷ em_dash
          ∷ em_dash
          ∷ fmt_zero (abs (opening_of a start))
          ∷ side_of (opening_of a start)
          ∷ [])
        ∷ [])

-- The two loops, over the rows and over the close entries.
abbrev pub statement_sums : Account → List Row → Date → List ClosePost → Bool → Sums
statement_sums a rows start closes sent =
    close_rows closes
      (ledger_rows true rows (start_sums (statement_top a start sent) (opening_of a start)))

-- The totals of the period.
unfoldable pub period_line : Sums → Text
unfolding fmt_zero row_line bold txt
period_line s = row_line (
    []
    ∷ []
    ∷ bold (txt "Total for the period")
    ∷ bold (fmt_zero s.tdr)
    ∷ bold (fmt_zero s.tcr)
    ∷ []
    ∷ []
    ∷ [])

unfoldable pub statement_table :
    Account → List Row → Date → Date → List ClosePost → Bool → Result Page
statement_table a rows start end closes sent =
    let s = statement_sums a rows start closes sent in
    guard (eqb_ℤ s.bal (opening_of a start +ℤ s.tdr -ℤ s.tcr)) columns_differ
    >> ok ((s.out ++ (period_line s ∷ [])) ++ (closing_line a end sent s.bal ∷ []))
