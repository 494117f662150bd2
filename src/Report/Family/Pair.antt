-- ===== src/Report/Family/Pair.antt =====
-- `pair_section` of docs/accounting/reference-books/build.py: the account between two books, side by
-- side.
use rukka_folio.Prelude.{
  ℕ, Bool, true, false, ◌&&◌, List, [], ◌∷◌, ◌++◌, if◌then◌else◌, ◌==◌, ltb, ℤ, neg, ◌+ℤ◌, ◌-ℤ◌,
  eqb_ℤ, is_nil, sum_by, length, map, Text, txt, cat, join, same,
}
use rukka_folio.Dates.{Date, fdate, fy_start, fy_end}
use rukka_folio.Fault.{
  Result, ok, err, ◌>>=◌, ◌>>◌, guard, key_error, entry_in_one_book, pair_closing_differs,
}
use rukka_folio.Book.{Account, Book}
use rukka_folio.Close.{ClosePost, close_posts}
use rukka_folio.Close.Balances.{Balances, balance_of, post_close_balances}
use rukka_folio.Report.Markdown.{Page, l, r, table, bold, head_line}
use rukka_folio.Report.BalanceSheet.Partners.{int_of}
use rukka_folio.Report.Family.{PairRow, pair_rows, dr_cr}

-- `left`: the other book's entries that no entry has met yet, oldest first.
abbrev pub Left : Type 0
Left = List PairRow

-- `left[(d, x)].pop(0)`: the entry's number, and what is left.
unfoldable pub meet : Date → ℤ → Left → Result (Text × Left)
meet d x [] = err key_error
meet d x (p ∷ rest) =
    let later = meet d x rest in
    if (p.date == d) && eqb_ℤ (neg p.x) x
    then ok (p.vid, rest)
    else (do found ← later; ok (found.0, p ∷ found.1))

-- What the loops carry.
pub record PairSums : Type 0 where
  pub rows : List (List Text)
  pub bal1 : ℤ
  pub bal2 : ℤ
  pub left : Left

-- The row of an entry and the entry that it met, and the two balances behind them.
unfoldable pub met : PairRow → Text → Left → PairSums → PairSums
unfolding dr_cr fdate
met p other left s =
    let mine = dr_cr p.x false in
    let theirs = dr_cr (neg p.x) false in
    record {
      rows =
          s.rows
          ++ ((fdate p.date ∷ p.note ∷ p.vid ∷ mine.0 ∷ mine.1 ∷ other ∷ theirs.0 ∷ theirs.1 ∷ [])
              ∷ []);
      bal1 = s.bal1 +ℤ p.x;
      bal2 = s.bal2 -ℤ p.x;
      left = left;
    }

-- The loop over the first book's entries.
unfoldable pub meet_all : List PairRow → PairSums → Result PairSums
unfolding meet met
meet_all [] s = ok s
meet_all (p ∷ rest) s = do
  (other, left) ← meet p.date p.x s.left
  meet_all rest (met p other left s)

-- `net` and `notes`: what a close entry moves on the pair's accounts, and its note.
pub record CloseNet : Type 0 where
  pub vid : Text
  pub x : ℤ
  pub note : Text

unfoldable pub add_net : ClosePost → List CloseNet → List CloseNet
add_net c [] = record { vid = c.id; x = c.amt; note = c.note } ∷ []
add_net c (n ∷ rest) =
    if same n.vid c.id
    then record n { x = n.x +ℤ c.amt; note = c.note } ∷ rest
    else n ∷ add_net c rest

abbrev pub add_nets : List ClosePost → List CloseNet → List CloseNet
add_nets [] ns = ns
add_nets (c ∷ cs) ns = add_nets cs (add_net c ns)

unfoldable pub close_nets : Book → List Account → List CloseNet → Result (List CloseNet)
unfolding close_posts add_net
close_nets b [] ns = ok ns
close_nets b (a ∷ rest) ns = do posts ← close_posts b a.name; close_nets b rest (add_nets posts ns)

-- `v.rsplit("Y", 1)[1]`: the text behind the last Y.
unfoldable pub behind_y : Text → Result Text
behind_y [] = err key_error
behind_y (c ∷ s) = elim (behind_y s) [ ok t ↦ ok t | err e ↦ if c == 89 then ok s else err e ]

-- `sorted(net, key=...)`, by the number behind the Y.
unfoldable pub insert_net : ℕ × CloseNet → List (ℕ × CloseNet) → List (ℕ × CloseNet)
insert_net k [] = k ∷ []
insert_net k (m ∷ rest) = if ltb m.0 k.0 then m ∷ insert_net k rest else k ∷ m ∷ rest

unfoldable pub sort_nets : List CloseNet → Result (List (ℕ × CloseNet))
unfolding behind_y int_of insert_net
sort_nets [] = ok []
sort_nets (n ∷ rest) =
    let others = sort_nets rest in
    do t ← behind_y n.vid; k ← int_of t; sorted ← others; ok (insert_net (k, n) sorted)

-- The rows of the close entries of one book, in its three columns.
unfoldable pub close_rows_of : Text → Bool → List (ℕ × CloseNet) → List (List Text)
unfolding dr_cr fdate txt
close_rows_of name first [] = []
close_rows_of name first (n ∷ rest) =
    let cells = dr_cr n.1.x false in
    let head =
      fdate fy_end ∷ cat (txt "Year close in " ∷ name ∷ txt " only — " ∷ n.1.note ∷ []) ∷ [] in
    let row =
      if first
      then head ++ (n.1.vid ∷ cells.0 ∷ cells.1 ∷ [] ∷ [] ∷ [] ∷ [])
      else head ++ ([] ∷ [] ∷ [] ∷ n.1.vid ∷ cells.0 ∷ cells.1 ∷ []) in
    let more = close_rows_of name first rest in if is_nil n.1.x then more else row ∷ more

abbrev pub net_total : List (ℕ × CloseNet) → ℤ
net_total = sum_by (λ n. n.1.x)

abbrev pub closed_total : List Account → Balances → ℤ
closed_total accounts pcb = sum_by (λ (a : Account). balance_of a.name pcb) accounts

-- `bold(c) if c else ""`
abbrev pub bold_if : Text → Text
bold_if [] = []
bold_if (c ∷ s) = bold (c ∷ s)

unfoldable pub pair_page :
    Book → Book → List Account → List Account → ℤ → ℤ → ℤ → ℤ → List (List Text) → Page
unfolding dr_cr fdate join head_line table bold txt
pair_page b ob mine theirs op1 op2 bal1 bal2 rows =
    let year = cat (fdate fy_start ∷ txt " to " ∷ fdate fy_end ∷ []) in
    let named =
      λ (accounts : List Account). join (txt " and ") (map (λ (a : Account). a.name) accounts) in
    let o1 = dr_cr op1 true in
    let o2 = dr_cr op2 true in
    let c1 = dr_cr bal1 true in
    let c2 = dr_cr bal2 true in
    (cat (txt "### Account between " ∷ b.name ∷ txt " and " ∷ ob.name ∷ txt " — " ∷ year ∷ [])
      ∷ []
      ∷ head_line (cat (b.name ∷ txt " · " ∷ ob.name ∷ [])) year
      ∷ []
      ∷ cat (
          b.name
          ∷ txt ": "
          ∷ named mine
          ∷ txt ". "
          ∷ ob.name
          ∷ txt ": "
          ∷ named theirs
          ∷ txt ". Each entry is shown once, with its number in both books; the note is "
          ∷ b.name
          ∷ txt "'s."
          ∷ [])
      ∷ []
      ∷ [])
    ++ table
        (txt "Date"
          ∷ txt "What happened"
          ∷ txt "No."
          ∷ cat (b.name ∷ txt " (Dr) ₹" ∷ [])
          ∷ txt "(Cr) ₹"
          ∷ txt "No."
          ∷ cat (ob.name ∷ txt " (Dr) ₹" ∷ [])
          ∷ txt "(Cr) ₹"
          ∷ [])
        (l ∷ l ∷ l ∷ r ∷ r ∷ l ∷ r ∷ r ∷ [])
        ((fdate fy_start ∷ txt "Brought forward" ∷ [] ∷ o1.0 ∷ o1.1 ∷ [] ∷ o2.0 ∷ o2.1 ∷ [])
          ∷ (rows
              ++ ((fdate fy_end
                    ∷ bold (txt "Closing balance, after the year close")
                    ∷ []
                    ∷ bold_if c1.0
                    ∷ bold_if c1.1
                    ∷ []
                    ∷ bold_if c2.0
                    ∷ bold_if c2.1
                    ∷ [])
                  ∷ [])))
    ++ ([] ∷ [])

-- `pair_section(b, ob, mine, theirs, op1, op2, last)`
unfoldable pub pair_section :
    Book → Book → List Account → List Account → ℤ → ℤ → (ℤ → ℤ → Result Page) → Result Page
unfolding pair_rows meet_all close_nets sort_nets close_rows_of pair_page post_close_balances
pair_section b ob mine theirs op1 op2 last = do
  let start : PairSums = record { rows = []; bal1 = op1; bal2 = op2; left = pair_rows theirs }
  s ← meet_all (pair_rows mine) start
  guard (length s.left == 0) entry_in_one_book
  nets1 ← close_nets b mine []
  closes1 ← sort_nets nets1
  nets2 ← close_nets ob theirs []
  closes2 ← sort_nets nets2
  pcb1 ← post_close_balances b
  pcb2 ← post_close_balances ob
  let bal1 = s.bal1 +ℤ net_total closes1
  let bal2 = s.bal2 +ℤ net_total closes2
  guard (eqb_ℤ bal1 (closed_total mine pcb1) && eqb_ℤ bal2 (closed_total theirs pcb2))
      pair_closing_differs
  end ← last bal1 bal2
  let rows = s.rows ++ close_rows_of b.name true closes1 ++ close_rows_of ob.name false closes2
  ok (pair_page b ob mine theirs op1 op2 bal1 bal2 rows ++ end)
