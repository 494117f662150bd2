-- ===== src/Report/Statement/Closing.antt =====
-- The closing balance of a statement.
use rukka_folio.Prelude.{
  ◌≡◌, ap, Bool, true, List, [], ◌∷◌, ◌++◌, ℤ, ◌+ℤ◌, ◌-ℤ◌, int_laws, eqb_ℤ, arith, sum_by,
}
use rukka_folio.Dates.{Date}
use rukka_folio.Fault.{ok}
use rukka_folio.Book.{Account, Row}
use rukka_folio.Close.{ClosePost}
use rukka_folio.Report.Markdown.{Page}
use rukka_folio.Report.LedgerTable.{Sums, ledger_rows, close_rows, close_row, opening_of}
use rukka_folio.Report.LedgerTable.Columns.{
  Foots, ledger_rows-Foots, close_rows-Foots, foots_at_start,
}
use rukka_folio.Report.Statement.{statement_table, statement_sums, period_line, closing_line}

ledger_rows-bal :
    (narr : Bool) (rows : List Row) (s : Sums)
    → (ledger_rows narr rows s).bal ≡ s.bal +ℤ sum_by (λ r. r.dr -ℤ r.cr) rows
unfolding ledger_rows
ledger_rows-bal narr [] s = omega int_laws
ledger_rows-bal narr (x ∷ xs) s = rw (ledger_rows-bal narr xs) (omega int_laws)

close_rows-bal :
    (ps : List ClosePost) (s : Sums) → (close_rows ps s).bal ≡ s.bal +ℤ sum_by (λ p. p.amt) ps
unfolding close_rows close_row
close_rows-bal [] s = omega int_laws
close_rows-bal (p ∷ ps) s = rw (close_rows-bal ps) (omega int_laws)

-- The balance that a statement closes with.
abbrev pub closing_of : Account → List Row → Date → List ClosePost → ℤ
closing_of a rows start closes =
    opening_of a start +ℤ sum_by (λ r. r.dr -ℤ r.cr) rows +ℤ sum_by (λ p. p.amt) closes

statement_sums-bal :
    (a : Account) (rows : List Row) (start : Date) (closes : List ClosePost) (sent : Bool)
    → (statement_sums a rows start closes sent).bal ≡ closing_of a rows start closes
statement_sums-bal a rows start closes sent = rw (close_rows-bal closes, ledger_rows-bal true rows)

eqb_foots : (b o x y : ℤ) → b ≡ o +ℤ (x -ℤ y) → eqb_ℤ b (o +ℤ x -ℤ y) ≡ true
eqb_foots b o x y h = let e : b ≡ o +ℤ x -ℤ y = omega (int_laws, h) in equal _ _ e
  where
    equal : (p q : ℤ) → p ≡ q → eqb_ℤ p q ≡ true
    equal p q e = ground arith

-- `statement_table` returns a page for any account, any rows and any close entries, so that its
-- assertion holds. The page's last line gives the opening balance of the period with what every row
-- and every close entry adds to it.
pub statement_table-closing :
    (a : Account) (rows : List Row) (start end : Date) (closes : List ClosePost) (sent : Bool)
    → (out : Page) × (statement_table a rows start end closes sent
        ≡ ok (out ++ (closing_line a end sent (closing_of a rows start closes) ∷ [])))
unfolding statement_table
statement_table-closing a rows start end closes sent =
    let s = statement_sums a rows start closes sent in
    let o = opening_of a start in
    let foots : Foots o s =
      close_rows-Foots o closes _ (ledger_rows-Foots true o rows _ (foots_at_start o)) in
    let page = s.out ++ (period_line s ∷ []) in
    (
      page,
      rw (eqb_foots s.bal o s.tdr s.tcr foots) (
          ap (λ (x : ℤ). ok (page ++ (closing_line a end sent x ∷ [])))
            (statement_sums-bal a rows start closes sent)),
    )
