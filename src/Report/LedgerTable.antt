-- ===== src/Report/LedgerTable.antt =====
-- `close_row` and `ledger_table` of docs/accounting/reference-books/build.py: an
-- account's page, from its opening balance to its closing balance.
pub mod Columns
use rukka_folio.Prelude.{
  ◌+◌, ◌-◌, Bool, true, false, not, ◌&&◌, List, [], ◌∷◌, ◌++◌, if◌then◌else◌, ℤ, pos, ◌+ℤ◌, ◌-ℤ◌,
  eqb_ℤ, abs, dr_of, cr_of, is_pos, Text, txt, join,
}
use rukka_folio.Dates.{Date, fdate, fy_end}
use rukka_folio.Money.{fmt, fmt_zero, em_dash}
use rukka_folio.Kinds.{is_bs_kind}
use rukka_folio.Fault.{Result, ok, ◌>>=◌, ◌>>◌, guard, columns_differ}
use rukka_folio.Book.{Account, Row, Book}
use rukka_folio.Queries.{balance_on}
use rukka_folio.Close.{ClosePost}
use rukka_folio.Report.Markdown.{Page, Align, l, r, c, table, row_line, bold, side_of}

-- The opening columns and totals of a table, as the loops leave them.
pub record Sums : Type 0 where
  pub out : Page
  pub bal : ℤ
  pub tdr : ℤ
  pub tcr : ℤ

abbrev headers : Account → List Text
headers a =
    txt "Date"
    ∷ txt "No."
    ∷ txt "Particulars"
    ∷ a.dr_col
    ∷ a.cr_col
    ∷ txt "Balance ₹"
    ∷ txt "Side"
    ∷ []

abbrev aligns : List Align
aligns = l ∷ l ∷ l ∷ r ∷ r ∷ r ∷ c ∷ []

abbrev pub post_part : ClosePost → Text
post_part p = (if is_pos p.amt then txt "To " else txt "By ") ++ join (txt " / ") p.others

abbrev pub with_note : Text → Text → Text
with_note part note = part ++ (txt "<br><em>" ++ (note ++ txt "</em>"))

-- `close_row(b, acct, cp, bal)`: the line, the new balance, and the amount's two columns.
unfoldable pub close_row : ClosePost → ℤ → Text × ℤ × ℤ × ℤ
unfolding fdate fmt fmt_zero side_of row_line txt join
close_row p bal =
    let nb = bal +ℤ p.amt in
    (
      row_line (
          fdate fy_end
          ∷ p.id
          ∷ with_note (post_part p) p.note
          ∷ fmt (dr_of p.amt)
          ∷ fmt (cr_of p.amt)
          ∷ fmt_zero (abs nb)
          ∷ side_of nb
          ∷ []),
      nb,
      dr_of p.amt,
      cr_of p.amt,
    )

-- The loop over the rows.
unfoldable pub ledger_rows : Bool → List Row → Sums → Sums
unfolding fdate fmt fmt_zero side_of row_line txt
ledger_rows narr [] s = s
ledger_rows narr (x ∷ xs) s =
    let bal = s.bal +ℤ (x.dr -ℤ x.cr) in
    let line = row_line (
      fdate x.date
      ∷ x.vid
      ∷ (if narr then with_note x.part x.vch.narration else x.part)
      ∷ fmt x.dr
      ∷ fmt x.cr
      ∷ fmt_zero (abs bal)
      ∷ side_of bal
      ∷ []) in
    ledger_rows narr xs
      (record { out = s.out ++ (line ∷ []); bal = bal; tdr = s.tdr +ℤ x.dr; tcr = s.tcr +ℤ x.cr })

-- The loop over the close entries of the account.
unfoldable pub close_rows : List ClosePost → Sums → Sums
unfolding close_row
close_rows [] s = s
close_rows (p ∷ ps) s =
    let (line, bal, cd, cc) = close_row p s.bal in
    close_rows ps
      (record { out = s.out ++ (line ∷ []); bal = bal; tdr = s.tdr +ℤ cd; tcr = s.tcr +ℤ cc })

-- The close entries below the total of an income or expense head.
unfoldable pub head_close_rows : List ClosePost → Page
unfolding fdate fmt fmt_zero row_line txt join
head_close_rows [] = []
head_close_rows (p ∷ ps) =
    row_line (
      fdate fy_end
      ∷ p.id
      ∷ with_note (post_part p) p.note
      ∷ fmt (dr_of p.amt)
      ∷ fmt (cr_of p.amt)
      ∷ fmt_zero (pos 0)
      ∷ em_dash
      ∷ [])
    ∷ head_close_rows ps

-- The words of a table, and its switches.
pub record Labels : Type 0 where
  pub bf : Text
  pub cd : Text
  pub bd : Text
  pub total : Text
  pub show_bd : Bool
  pub narr : Bool

pub record LedgerPage : Type 0 where
  pub out : Page
  pub opening : ℤ
  pub tdr : ℤ
  pub tcr : ℤ
  pub closing : ℤ

-- The two columns' totals, which the source asserts to be equal.
abbrev pub dr_column : ℤ → Sums → ℤ
dr_column opening s = s.tdr +ℤ dr_of opening +ℤ cr_of s.bal

abbrev pub cr_column : ℤ → Sums → ℤ
cr_column opening s = s.tcr +ℤ cr_of opening +ℤ dr_of s.bal

unfoldable pub opening_of : Account → Date → ℤ
unfolding balance_on is_bs_kind
opening_of a start = if is_bs_kind a.kind then balance_on (start - 1) a else pos 0

abbrev pub start_sums : Page → ℤ → Sums
start_sums out opening = record { out = out; bal = opening; tdr = pos 0; tcr = pos 0 }

-- The end of a balance-sheet account's page.
unfoldable pub balance_page : Labels → Date → ℤ → Sums → LedgerPage
unfolding fdate fmt fmt_zero side_of row_line bold txt
balance_page w end opening s =
    let closing = s.bal in
    record {
      out =
          s.out
          ++ (row_line (
                fdate end
                ∷ []
                ∷ w.cd
                ∷ fmt (cr_of closing)
                ∷ fmt (dr_of closing)
                ∷ em_dash
                ∷ em_dash
                ∷ [])
              ∷ row_line (
                  []
                  ∷ []
                  ∷ bold (txt "Total")
                  ∷ bold (fmt_zero (dr_column opening s))
                  ∷ bold (fmt_zero (cr_column opening s))
                  ∷ []
                  ∷ []
                  ∷ [])
              ∷ (if w.show_bd
                  then row_line (
                      fdate (end + 1)
                      ∷ []
                      ∷ w.bd
                      ∷ fmt (dr_of closing)
                      ∷ fmt (cr_of closing)
                      ∷ fmt_zero (abs closing)
                      ∷ side_of closing
                      ∷ [])
                    ∷ []
                  else []));
      opening = opening;
      tdr = s.tdr;
      tcr = s.tcr;
      closing = closing;
    }

-- The assertion on the columns, before it.
unfoldable pub balance_tail : Labels → Date → ℤ → Sums → Result LedgerPage
unfolding balance_page
balance_tail w end opening s =
    guard (eqb_ℤ (dr_column opening s) (cr_column opening s)) columns_differ
    >> ok (balance_page w end opening s)

-- The end of an income or expense head's page.
unfoldable pub head_tail : Labels → List ClosePost → ℤ → Sums → LedgerPage
unfolding head_close_rows fmt fmt_zero side_of row_line bold txt
head_tail w closes opening s = record {
  out =
      s.out
      ++ (row_line (
            []
            ∷ []
            ∷ bold w.total
            ∷ bold (fmt s.tdr)
            ∷ bold (fmt s.tcr)
            ∷ bold (fmt_zero (abs s.bal))
            ∷ bold (side_of s.bal)
            ∷ [])
          ∷ head_close_rows closes);
  opening = opening;
  tdr = s.tdr;
  tcr = s.tcr;
  closing = s.bal;
}

-- The lines above the entries: the heading, and the opening balance that is brought forward.
unfoldable pub head_top : Account → Page
unfolding table txt
head_top a = table (headers a) aligns []

unfoldable pub balance_top : Account → Date → Labels → Page
unfolding head_top opening_of fdate fmt fmt_zero side_of row_line
balance_top a start w =
    let opening = opening_of a start in
    head_top a
    ++ (row_line (
          fdate start
          ∷ []
          ∷ w.bf
          ∷ fmt (dr_of opening)
          ∷ fmt (cr_of opening)
          ∷ fmt_zero (abs opening)
          ∷ side_of opening
          ∷ [])
        ∷ [])

-- What the loops leave.
abbrev pub balance_sums : Account → List Row → Date → Labels → List ClosePost → Sums
balance_sums a rows start w closes =
    close_rows closes
      (ledger_rows w.narr rows (start_sums (balance_top a start w) (opening_of a start)))

abbrev pub head_sums : Account → List Row → Date → Labels → Sums
head_sums a rows start w = ledger_rows w.narr rows (start_sums (head_top a) (opening_of a start))

-- `ledger_table`; `closes` are the account's close entries, and none where `close` is false.
unfoldable pub ledger_table :
    Account → List Row → Date → Date → Labels → List ClosePost → Result LedgerPage
ledger_table a rows start end w closes =
    if is_bs_kind a.kind
    then balance_tail w end (opening_of a start) (balance_sums a rows start w closes)
    else ok (head_tail w closes (opening_of a start) (head_sums a rows start w))
