-- ===== src/Report/Daybook.antt =====
-- `daybook_rows` of docs/accounting/reference-books/build.py: the rows of the Day Book.
pub mod Rows
pub mod Page
use rukka_folio.Prelude.{Bool, true, false, List, [], ◌∷◌, ◌++◌, if◌then◌else◌, Text, txt}
use rukka_folio.Dates.{fdate}
use rukka_folio.Money.{fmt}
use rukka_folio.Kinds.{is_money_kind}
use rukka_folio.Vtypes.{word_of, plain_vtype}
use rukka_folio.Fault.{Result, ok, ◌>>=◌, or_key_error}
use rukka_folio.Book.{Account, Book, Line, Voucher, amount, dr_lines, cr_lines, find_account}
use rukka_folio.Report.Markdown.{side_cell}

-- `any(b.accounts[n].is_money for n, _ in vch.lines)`
unfoldable pub any_money : List Account → List Line → Result Bool
unfolding find_account is_money_kind
any_money accounts [] = ok false
any_money accounts (x ∷ xs) =
    let rest = any_money accounts xs in
    do a ← or_key_error (find_account x.0 accounts); if is_money_kind a.kind then ok true else rest

unfoldable pub daybook_row : Voucher → Text → Bool → List Text
unfolding fdate fmt amount dr_lines cr_lines side_cell txt
daybook_row w word moved =
    fdate w.date
    ∷ w.vid
    ∷ (word ++ (if moved then [] else txt " — no money moved"))
    ∷ side_cell (dr_lines w)
    ∷ side_cell (cr_lines w)
    ∷ fmt (amount w)
    ∷ w.narration
    ∷ []

-- The loop over the vouchers.
unfoldable pub daybook_of : List Account → List Voucher → Result (List (List Text))
unfolding any_money word_of plain_vtype daybook_row
daybook_of accounts [] = ok []
daybook_of accounts (w ∷ ws) =
    let rest = daybook_of accounts ws in
    do
      moved ← any_money accounts w.lines
      word ← or_key_error (word_of w.vtype plain_vtype)
      rows ← rest
      ok (daybook_row w word moved ∷ rows)

unfoldable pub daybook_rows : Book → Result (List (List Text))
unfolding daybook_of
daybook_rows b = daybook_of b.accounts b.vouchers
