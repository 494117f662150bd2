-- ===== src/Report/Ledgers.antt =====
-- `sec_ledgers` of docs/accounting/reference-books/build.py: one account after another.
use rukka_folio.Prelude.{
  Bool, true, false, not, ◌&&◌, List, [], ◌∷◌, ◌++◌, if◌then◌else◌, length, ◌==◌, is_nil, some_of,
  Text, txt, cat, none,
}
use rukka_folio.Dates.{fdate, fy_start, fy_end}
use rukka_folio.Kinds.{fixed, is_kind}
use rukka_folio.Fault.{Result, ok, ◌>>=◌}
use rukka_folio.Book.{Account, Book}
use rukka_folio.Close.{close_posts}
use rukka_folio.Report.Markdown.{Page, head_line}
use rukka_folio.Report.LedgerTable.{Labels, ledger_table}
use rukka_folio.Report.Position.{foot_notes}
use rukka_folio.Report.CarryForward.{has_drawings}

unfoldable pub ledger_labels : Labels
unfolding txt
ledger_labels = record {
  bf = txt "Opening balance b/f";
  cd = txt "Closing balance c/d";
  bd = txt "Opening balance b/d (FY 2026-27)";
  total = txt "Total for the year";
  show_bd = true;
  narr = true;
}

-- An account that the book never used.
abbrev pub is_blank : Account → Bool
is_blank a = (length a.rows == 0) && is_nil a.opening

-- One round of the loop over the accounts.
unfoldable pub ledger_of : Book → Account → Result Page
unfolding close_posts ledger_table ledger_labels txt
ledger_of b a =
    if is_blank a
    then ok (
        cat (txt "#### " ∷ a.name ∷ [])
        ∷ []
        ∷ txt "*No entries in FY 2025-26 and no opening balance.*"
        ∷ []
        ∷ [])
    else (do
      closes ← close_posts b a.name
      p ← ledger_table a a.rows fy_start fy_end ledger_labels closes
      ok (cat (txt "#### " ∷ a.name ∷ []) ∷ [] ∷ (p.out ++ ([] ∷ []))))

unfoldable pub ledgers_of : Book → List Account → Result Page
unfolding ledger_of
ledgers_of b [] = ok []
ledgers_of b (a ∷ rest) =
    let more = ledgers_of b rest in do page ← ledger_of b a; pages ← more; ok (page ++ pages)

unfoldable pub ledgers_intro : Book → Text
unfolding has_drawings fdate txt
ledgers_intro b = cat (
    txt
      "One account after another: date, entry number, the other account (*To …* on the Dr side, *By …* on the Cr side) with the entry's note in small type, the amount on its side, "
    ∷ txt "the running balance and its side. "
    ∷ txt
        "Accounts that carry a balance open with *Opening balance b/f* and end *Closing balance c/d · Total · Opening balance b/d*, the opening and closing balances standing in the amount column of their side so that each column adds up to the Total; "
    ∷ txt
        "income and expense accounts end with their total for the year. The last rows of the heads"
    ∷ (if has_drawings b then txt ", the drawings" else [])
    ∷ txt
        " and the own-money accounts are the year-close entries (numbers ending Y1, Y2 …) that the book makes itself on "
    ∷ fdate fy_end
    ∷ txt " — they are listed in section 4."
    ∷ [])

-- `sec_ledgers(b)`
unfoldable pub sec_ledgers : Book → Result Page
unfolding ledgers_of ledgers_intro head_line fdate foot_notes txt
sec_ledgers b = do
  pages ← ledgers_of b b.accounts
  ok (
      (txt "### 2. Every account (ledger)"
        ∷ []
        ∷ head_line b.name (cat (fdate fy_start ∷ txt " to " ∷ fdate fy_end ∷ []))
        ∷ []
        ∷ ledgers_intro b
        ∷ []
        ∷ [])
      ++ pages
      ++ foot_notes b (some_of (λ a. is_kind a.kind fixed && not (is_blank a)) b.accounts) false 0
          none)
