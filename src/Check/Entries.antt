-- ===== src/Check/Entries.antt =====
-- How docs/accounting/reference-books/check_md.py reads the entries of the Day Book: `pdate`,
-- `signed`, `split_cell`, and the part of `parse_book` that turns a row into an entry. The checks that
-- `ok` counts are left out here. A date is read in the form in which the pages print it.
use rukka_folio.Prelude.{
  ℕ, zero, suc, ◌+◌, ◌-◌, ◌%◌, Bool, true, false, not, ◌&&◌, ◌||◌, ltb, leb, ◌==◌, List, [], ◌∷◌,
  ◌++◌, if◌then◌else◌, length, take, drop, every, map, ℤ, neg, Text, txt, same, starts_with, Option,
  none, some,
}
use rukka_folio.Dates.{Date, D, month_abbr}
use rukka_folio.Fault.{Result, ok, err, ◌>>=◌, ◌>>◌, guard, value_error, not_named, few_cells}
use rukka_folio.Book.{Line}
use rukka_folio.Report.BalanceSheet.Partners.{int_of}
use rukka_folio.Report.Family.{ends_with}
use rukka_folio.Check.Cells.{is_digit, strip, behind, clean, paise, split_point, part_ok}
use rukka_folio.Check.Tables.{split_on, read_tables}
use rukka_folio.Check.Book.{Read}

-- The month of an abbreviation, searched from month `m` on.
abbrev pub month_from : ℕ → ℕ → Text → Result ℕ
month_from zero m s = err value_error
month_from (suc left) m s =
    let later = month_from left (m + 1) s in if same s (month_abbr m) then ok m else later

abbrev pub is_leap : ℕ → Bool
is_leap y = (y % 4 == 0) && (not (y % 100 == 0) || (y % 400 == 0))

abbrev pub days_in : ℕ → ℕ → ℕ
days_in y m =
    if m == 2
    then (if is_leap y then 29 else 28)
    else if (m == 4) || (m == 6) || (m == 9) || (m == 11)
    then 30
    else 31

-- `datetime.strptime(s, "%d %b %Y").date()`
unfoldable pub date_of : List Text → Result Date
unfolding int_of D txt same
date_of (day ∷ month ∷ year ∷ []) = do
  d ← int_of day
  m ← month_from 12 1 month
  y ← int_of year
  guard
      ((length year == 4) && (leb (length day) 2 && (ltb 0 y && (ltb 0 d && leb d (days_in y m)))))
      value_error
  ok (D y m d)
date_of parts = err value_error

-- `pdate(s)`
unfoldable pub pdate : Text → Result Date
unfolding date_of clean split_on txt
pdate s = date_of (split_on (txt " ") (clean s))

-- `signed(cell)`: before a last `Dr` or `Cr` stands a blank.
unfoldable pub signed : Text → Result ℤ
unfolding clean paise strip txt
signed cell =
    let s = clean cell in
    let n = length s - 2 in
    let front = take n s in
    let blank = ltb (length (strip front)) (length front) in
    let cr = blank && ends_with s (txt "Cr") in
    if cr || (blank && ends_with s (txt "Dr"))
    then (do v ← paise front; ok (if cr then neg v else v))
    else paise s

-- `[\d,]+(?:\.\d\d)?`
unfoldable pub is_figure : Text → Bool
unfolding split_point
is_figure s =
    let groups = split_point s in
    ltb 0 (length groups.0) && (every (λ c. is_digit c || (c == 44)) groups.0 && part_ok groups.1)

-- The groups of `re.match(r"^(.*) ₹([\d,]+(?:\.\d\d)?)$", s)`; a figure has no blank in it, so that only
-- the last ` ₹` can stand before one.
unfoldable pub split_named : Text → Option (Text × Text)
unfolding is_figure starts_with txt
split_named [] = none
split_named (c ∷ s) =
    let here = drop 2 (c ∷ s) in
    elim (split_named s) [
      | some groups ↦ some (c ∷ groups.0, groups.1)
      | none ↦ if starts_with (c ∷ s) (txt " ₹") && is_figure here then some ([], here) else none
    ]

abbrev pub is_some {ℓ} : {A : Type ℓ} → Option A → Bool
is_some none = false
is_some (some x) = true

-- A part that does not match raises.
unfoldable pub named_line : Option (Text × Text) → Result Line
unfolding strip paise
named_line none = err not_named
named_line (some groups) = do a ← paise groups.1; ok (strip groups.0, a)

-- The loop over the parts.
unfoldable pub named_parts : List Text → Result (List Line)
unfolding split_named named_line strip
named_parts [] = ok []
named_parts (p ∷ ps) =
    let rest = named_parts ps in do ok ((← named_line (split_named (strip p))) ∷ (← rest))

-- `split_cell(cell, amount, label, vid)`
unfoldable pub split_cell : Text → ℤ → Result (List Line)
unfolding behind split_named named_parts split_on strip txt
split_cell cell amount =
    if is_some (behind (txt "<br>") cell) || is_some (split_named cell)
    then named_parts (split_on (txt "<br>") cell)
    else ok ((strip cell, amount) ∷ [])

unfoldable pub moved_mark : Text
unfolding txt
moved_mark = txt " — no money moved"

abbrev pub unmarked : Text → Text
unmarked vtype =
    if ends_with vtype moved_mark then take (length vtype - length moved_mark) vtype else vtype

-- A row of the Day Book, as the entry that `bk.vouchers` takes.
unfoldable pub read_entry : List Text → Result Read
unfolding paise split_cell pdate moved_mark
read_entry (date ∷ vid ∷ vtype ∷ drc ∷ crc ∷ amt ∷ narr ∷ more) = do
  amount ← paise amt
  drs ← split_cell drc amount
  crs ← split_cell crc amount
  d ← pdate date
  ok (record {
    date = d;
    vid = vid;
    vtype = unmarked vtype;
    lines = drs ++ map (λ l. (l.0, neg l.1)) crs;
    amount = amount;
    narr = strip narr;
  })
read_entry few = err few_cells

-- The loop over the rows.
unfoldable pub read_entries : List (List Text) → Result (List Read)
unfolding read_entry
read_entries [] = ok []
read_entries (r ∷ rows) = let rest = read_entries rows in do ok ((← read_entry r) ∷ (← rest))

-- The Day Book's entries: those of the first table of the segment, behind its head.
abbrev pub first_table : List (ℕ × List (List Text)) → Result (List (List Text))
first_table [] = err few_cells
first_table (t ∷ ts) = ok t.1

unfoldable pub day_book : List Text → Result (List Read)
unfolding read_tables read_entries
day_book lines = do
  tables ← read_tables lines
  rows ← first_table tables
  read_entries (drop 1 rows)
