-- ===== src/Report/Family/Page.antt =====
-- The page of `sec_family_summary` of docs/accounting/reference-books/build.py.
use rukka_folio.Prelude.{
  Bool, ◌||◌, List, [], ◌∷◌, ◌++◌, if◌then◌else◌, length, ◌==◌, ltb, map, every, some_of, Text, txt,
  cat, join,
}
use rukka_folio.Fault.{Result, ok, ◌>>=◌}
use rukka_folio.Book.{Book}
use rukka_folio.Report.Markdown.{Page, l, r, c, table, head_line}
use rukka_folio.Report.Family.{Case, Pairs, accounts_for, link_pairs}
use rukka_folio.Report.Family.Summary.{has_stake, pair_parts}

-- `stake`, of one pair.
unfoldable pub pair_has_stake : Book × Book → Bool
unfolding accounts_for
pair_has_stake p = has_stake (accounts_for p.0 p.1) || has_stake (accounts_for p.1 p.0)

unfoldable pub family_intro : Pairs → Text
unfolding pair_has_stake txt
family_intro pairs = cat (
    txt
      "Money that moves between two books is written in both, in accounts named after the other book. For each pair: the balances brought forward agree, "
    ∷ txt
        "and what one book gave is what the other received, entry for entry. The table below gives each pair's totals; the account between each pair follows it, entry by entry."
    ∷ (if every pair_has_stake pairs
        then []
        else txt " A family and a sub-family also agree balance for balance on opposite sides.")
    ∷ (if some_of pair_has_stake pairs
        then txt
            " An owner and the business he owns agree entry by entry — money put in against the business's capital, money sent home against its drawings — but not in balance: the owner holds the business at the money put in, while the business's own money also carries its profit, so the difference is printed at the foot of that pair's account as *profit kept in the business*."
        else [])
    ∷ [])

unfoldable pub family_page : Case → Pairs → List (List Text) × Page → Page
unfolding family_intro head_line table join txt
family_page x pairs (rows, sections) =
    (cat (
        txt "## "
        ∷ (if ltb 2 (length x.books)
            then txt "Family summary"
            else txt "The two books side by side")
        ∷ txt " — the books agree"
        ∷ [])
      ∷ []
      ∷ head_line (join (txt " · ") (map (λ (b : Book). b.name) x.books)) (txt "FY 2025-26")
      ∷ []
      ∷ family_intro pairs
      ∷ []
      ∷ [])
    ++ table
        (txt "Book"
          ∷ txt "Its accounts for the other book"
          ∷ txt "Brought forward ₹"
          ∷ txt "Given (Dr) ₹"
          ∷ txt "Received (Cr) ₹"
          ∷ txt "Other book"
          ∷ txt "Its accounts"
          ∷ txt "Brought forward ₹"
          ∷ txt "Given (Dr) ₹"
          ∷ txt "Received (Cr) ₹"
          ∷ txt "Entries"
          ∷ txt "Agree"
          ∷ [])
        (l ∷ l ∷ r ∷ r ∷ r ∷ l ∷ l ∷ r ∷ r ∷ r ∷ r ∷ c ∷ []) rows
    ++ ([] ∷ [])
    ++ (if length x.summary_note == 0 then [] else x.summary_note ∷ [] ∷ [])
    ++ sections

-- `sec_family_summary(case)`
unfoldable pub sec_family_summary : Case → Result Page
unfolding link_pairs pair_parts family_page
sec_family_summary x = do
  pairs ← link_pairs x
  parts ← pair_parts pairs
  ok (if length pairs == 0 then [] else family_page x pairs parts)
