-- ===== src/Check/DayBookRead.antt =====
-- The printed Day Book, read back: from the lines of its page to the accounts that `post` left.
use rukka_folio.Prelude.{
  ◌≡◌, refl, sym, ◌∙◌, ap, ℕ, ◌+◌, false, List, [], ◌∷◌, ◌++◌, length, map, Text, txt, cat, join,
  starts_with, Option, none, some, All, arith, str_of,
}
use rukka_folio.Dates.{fdate, fy_start, fy_end}
use rukka_folio.Fault.{ok, ◌>>=◌, >>=-eq-ok, or_key_error}
use rukka_folio.Vtypes.{word_of, plain_vtype}
use rukka_folio.Book.{Account, Book, Line, Voucher, amount, dr_lines, cr_lines}
use rukka_folio.Book.Changed.{ok-injective}
use rukka_folio.Entry.{validate_vouchers}
use rukka_folio.Entry.Known.{IsEntry, validate_vouchers-IsEntry}
use rukka_folio.Posting.{post, reset}
use rukka_folio.Posting.Parts.{post-parts}
use rukka_folio.Report.Markdown.{Page, l, r, table, row_line, head_line}
use rukka_folio.Report.Daybook.{any_money, daybook_row, daybook_of, daybook_rows}
use rukka_folio.Report.Daybook.Page.{
  KindCounts, kind_counts, sorted_kinds, daybook_intro, sec_daybook,
}
use rukka_folio.Check.Cells.{strip}
use rukka_folio.Check.Tables.{is_row, tables_from, read_tables}
use rukka_folio.Check.Rows.{barless, All-barless}
use rukka_folio.Check.Printed.{IsCells, IsAfter, tables_from-table}
use rukka_folio.Check.Book.{Read, Head, append_post, take_lines, take_entries, fill}
use rukka_folio.Check.Book.Refined.{head_from, read_of, fill-post}
use rukka_folio.Check.Book.Swapped.{bind_ext}
use rukka_folio.Check.Entries.{read_entries, day_book}
use rukka_folio.Check.EntryRead.{IsReadable, read_entry-daybook_row}

-- Lines that are no rows of a table.
abbrev NotRows : List Text → Type 0
NotRows = All (λ x. is_row x ≡ false)

tables_skip :
    (i : ℕ) (before rest : List Text)
    → NotRows before
    → tables_from i 0 (before ++ rest) ≡ tables_from (i + length before) 0 rest
unfolding tables_from
tables_skip i [] rest h = ap (λ k. tables_from k 0 rest) (omega arith)
tables_skip i (x ∷ before) rest h =
    rw h.0 (tables_skip (i + 1) before rest h.1 ∙ ap (λ k. tables_from k 0 rest) (omega arith))

tables_none : (i : ℕ) (after : List Text) → NotRows after → tables_from i 0 after ≡ ok []
unfolding tables_from
tables_none i [] h = refl
tables_none i (x ∷ after) h = rw h.0 (tables_none (i + 1) after h.1)

NotRows-IsAfter : (after : List Text) → NotRows after → IsAfter after
NotRows-IsAfter [] h = tt
NotRows-IsAfter (x ∷ after) h = h.0

-- The entry with its type in plain words.
abbrev read_as : Voucher → Text → Read
read_as w word = record (read_of w) { vtype = word }

-- These are the entries, with some words for their types.
Shows : List Voucher → List Read → Type 0
Shows [] [] = Unit
Shows [] (e ∷ es) = ⊥
Shows (w ∷ ws) [] = ⊥
Shows (w ∷ ws) (e ∷ es) = ((word : Text) × (e ≡ read_as w word)) × Shows ws es

or_key-some : (v : Option Text) (word : Text) → or_key_error v ≡ ok word → v ≡ some word
or_key-some none word h = cc
or_key-some (some w) word h = ap some (ok-injective h)

rows_read :
    (accounts known : List Account) (ws : List Voucher) (rows : List (List Text))
    → All (IsEntry known) ws
    → All IsReadable ws
    → daybook_of accounts ws ≡ ok rows
    → (es : List Read) × (read_entries (map (map strip) rows) ≡ ok es) × Shows ws es
unfolding daybook_of read_entries Shows
rows_read accounts known [] rows h k e =
    let none_left : [] ≡ rows = ok-injective e in rw (← none_left) ([], refl, tt)
rows_read accounts known (w ∷ ws) rows h k e =
    let (moved, p, e1) =
      >>=-eq-ok (any_money accounts w.lines)
        (λ moved. or_key_error (word_of w.vtype plain_vtype) >>= λ word.
          daybook_of accounts ws >>= λ more. ok (daybook_row w word moved ∷ more))
        e in
    let (word, q, e2) =
      >>=-eq-ok (or_key_error (word_of w.vtype plain_vtype))
        (λ word. daybook_of accounts ws >>= λ more. ok (daybook_row w word moved ∷ more)) e1 in
    let (more, s, e3) =
      >>=-eq-ok (daybook_of accounts ws) (λ more. ok (daybook_row w word moved ∷ more)) e2 in
    let (es, t, u) = rows_read accounts known ws more h.1 k.1 s in
    let first =
      read_entry-daybook_row known w word moved h.0 k.0
        (or_key-some (word_of w.vtype plain_vtype) word q) in
    let row : daybook_row w word moved ∷ more ≡ rows = ok-injective e3 in
    rw (← row) (read_as w word ∷ es, rw (first, t) refl, ((word, refl), u))

same_lines :
    (w : Voucher) (word : Text) (ls : List Line) (heads : List Head)
    → take_lines (read_as w word) ls heads ≡ take_lines (read_of w) ls heads
unfolding take_lines dr_lines cr_lines amount
same_lines w word [] heads = refl
same_lines w word (x ∷ ls) heads =
    bind_ext (append_post x.0 (record { date = w.date; vid = w.vid; amount = x.1 }) heads) _ _
      (same_lines w word ls)

take_entries-Shows :
    (ws : List Voucher) (es : List Read) (heads : List Head)
    → Shows ws es
    → take_entries es heads ≡ take_entries (map read_of ws) heads
unfolding take_entries Shows dr_lines cr_lines amount
take_entries-Shows [] [] heads h = refl
take_entries-Shows [] (e ∷ es) heads h = absurd h
take_entries-Shows (w ∷ ws) [] heads h = absurd h
take_entries-Shows (w ∷ ws) (e ∷ es) heads ((word, s), h) =
    ap (λ x. take_lines x x.lines heads >>= take_entries es) s
    ∙ (ap (λ x. x >>= take_entries es) (same_lines w word (read_of w).lines heads)
        ∙ bind_ext (take_lines (read_of w) (read_of w).lines heads) _ _
            (λ x. take_entries-Shows ws es x h))

-- The lines of the page before the table, and behind it.
head_lines : Book → List Text
unfolding head_line fdate txt join
head_lines b =
    txt "### 1. Day Book (rojnamcha) — every entry of the year"
    ∷ []
    ∷ head_line b.name (cat (fdate fy_start ∷ txt " to " ∷ fdate fy_end ∷ []))
    ∷ []
    ∷ daybook_intro
    ∷ []
    ∷ []

titles : List Text
unfolding txt
titles =
    txt "No."
    ∷ txt "Type"
    ∷ txt "Debit (Dr)"
    ∷ txt "Credit (Cr)"
    ∷ txt "Amount ₹"
    ∷ txt "What happened"
    ∷ []

head_lines-NotRows : (b : Book) → NotRows (head_lines b)
unfolding head_lines starts_with txt daybook_intro head_line join
head_lines-NotRows b = (refl, (refl, (refl, (refl, (refl, (refl, tt))))))

tail_lines : Book → KindCounts → List Text
unfolding sorted_kinds join str_of txt
tail_lines b kinds =
    []
    ∷ cat (
        txt "*"
        ∷ str_of (length b.vouchers)
        ∷ txt " entries: "
        ∷ join (txt " · ") (map (λ k. cat (k.0 ∷ txt " " ∷ str_of k.1 ∷ [])) (sorted_kinds kinds))
        ∷ txt ".*"
        ∷ [])
    ∷ []
    ∷ []

tail_lines-NotRows : (b : Book) (kinds : KindCounts) → NotRows (tail_lines b kinds)
unfolding tail_lines starts_with txt
tail_lines-NotRows b kinds = (refl, (refl, (refl, tt)))

-- The table, and the lines behind it.
from_table : Book → List (List Text) → KindCounts → List Text
unfolding titles tail_lines
from_table b rows kinds =
    table (txt "Date" ∷ titles) (l ∷ l ∷ l ∷ l ∷ l ∷ r ∷ l ∷ []) rows ++ tail_lines b kinds

page_parts :
    (b : Book)
    → sec_daybook b ≡ (
        daybook_rows b >>= λ rows.
        kind_counts b.vouchers [] >>= λ kinds. ok (head_lines b ++ from_table b rows kinds))
unfolding sec_daybook head_lines titles tail_lines from_table table row_line
page_parts b = refl

page_of :
    (b : Book) (page : Page)
    → sec_daybook b ≡ ok page
    → (rows : List (List Text)) × (kinds : KindCounts) × (daybook_rows b ≡ ok rows)
      × (page ≡ head_lines b ++ from_table b rows kinds)
page_of b page e =
    let (rows, p, e1) =
      >>=-eq-ok (daybook_rows b)
        (λ rows.
          kind_counts b.vouchers [] >>= λ kinds. ok (head_lines b ++ from_table b rows kinds))
        (sym (page_parts b) ∙ e) in
    let (kinds, q, e2) =
      >>=-eq-ok (kind_counts b.vouchers []) (λ kinds. ok (head_lines b ++ from_table b rows kinds))
        e1 in
    (rows, kinds, p, sym (ok-injective e2))

titles-IsCells : IsCells (txt "Date" ∷ titles)
unfolding titles txt barless
titles-IsCells = All-barless (txt "Date" ∷ titles) refl

-- The page of the Day Book, as the checker takes it apart: one table, with its head and its rows.
tables_of_page :
    (b : Book) (rows : List (List Text)) (kinds : KindCounts)
    → All IsCells rows
    → read_tables (head_lines b ++ from_table b rows kinds)
      ≡ ok ((6, map strip (txt "Date" ∷ titles) ∷ map (map strip) rows) ∷ [])
unfolding read_tables from_table head_lines
tables_of_page b rows kinds h =
    tables_skip 0 (head_lines b) (from_table b rows kinds) (head_lines-NotRows b)
    ∙ (tables_from-table (txt "Date") titles l (l ∷ l ∷ l ∷ l ∷ r ∷ l ∷ []) rows
          (tail_lines b kinds) titles-IsCells h
          (NotRows-IsAfter (tail_lines b kinds) (tail_lines-NotRows b kinds))
          (0 + length (head_lines b))
        ∙ ap
            (λ x.
              x >>= λ more. ok ((6, map strip (txt "Date" ∷ titles) ∷ map (map strip) rows) ∷ more))
            (tables_none (6 + (2 + length rows)) (tail_lines b kinds) (tail_lines-NotRows b kinds)))

-- From a book whose entries passed `validate_vouchers`, can be shown in the Day Book and were posted,
-- the Day Book's page, when no cell of its table has a bar in it, is read back to the posted accounts:
-- the checker reads the page's lines, its table, the rows and their cells, and with these entries and
-- the chart's accounts fills the names, types, openings, postings and closing balances of the book.
pub day_book-sec_daybook :
    (b b' : Book) (rows : List (List Text)) (page : Page)
    → validate_vouchers b.accounts b.vouchers ≡ ok tt
    → All IsReadable b.vouchers
    → post b ≡ ok b'
    → daybook_rows b' ≡ ok rows
    → All IsCells rows
    → sec_daybook b' ≡ ok page
    → (do entries ← day_book page; fill entries (map head_from (map reset b.accounts)))
      ≡ ok (map head_from b'.accounts)
unfolding day_book fill daybook_rows
day_book-sec_daybook b b' rows page valid readable posted listed barless printed =
    let (rows', kinds, p, q) = page_of b' page printed in
    let same_rows : rows' ≡ rows = ok-injective (sym p ∙ listed) in
    let (after, k, e) = post-parts b b' posted in
    let same_vouchers : b'.vouchers ≡ b.vouchers = ap (λ x. x.vouchers) e in
    let (es, t, u) =
      rows_read b'.accounts b.accounts b.vouchers rows
        (validate_vouchers-IsEntry b.accounts b.vouchers valid) readable
        (ap (daybook_of b'.accounts) (sym same_vouchers) ∙ listed) in
    rw
      (
        q,
        same_rows,
        tables_of_page b' rows kinds barless,
        t,
        take_entries-Shows b.vouchers es (map head_from (map reset b.accounts)) u,
      )
      (fill-post b b' valid posted)
