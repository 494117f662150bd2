-- ===== src/Check/Tables.antt =====
-- `cells`, `read_tables` and `block` of docs/accounting/reference-books/check_md.py. The
-- lines are those of a segment of a page; a table comes with the number of its first line.
use rukka_folio.Prelude.{
  ℕ, zero, suc, ◌+◌, ◌-◌, Bool, false, ◌&&◌, ◌||◌, ltb, ◌==◌, List, [], ◌∷◌, if◌then◌else◌, length,
  take, drop, every, map, Text, txt, starts_with,
}
use rukka_folio.Fault.{Result, ok, ◌>>=◌, ◌>>◌, guard, not_a_row}
use rukka_folio.Report.Family.{ends_with}
use rukka_folio.Check.Cells.{strip}

abbrev pub onto_first : ℕ → List Text → List Text
onto_first c [] = (c ∷ []) ∷ []
onto_first c (p ∷ ps) = (c ∷ p) ∷ ps

-- `s.split(sep)`: `skip` characters of a separator that was found are still to be passed.
unfoldable pub split_from : Text → ℕ → Text → List Text
split_from sep skip [] = [] ∷ []
split_from sep (suc skip) (c ∷ s) = split_from sep skip s
split_from sep zero (c ∷ s) =
    let found = [] ∷ split_from sep (length sep - 1) s in
    let missed = onto_first c (split_from sep zero s) in
    if starts_with (c ∷ s) sep then found else missed

unfoldable pub split_on : Text → Text → List Text
unfolding split_from
split_on sep s = split_from sep 0 s

-- `cells(line)`
unfoldable pub cells : Text → Result (List Text)
unfolding strip split_on starts_with txt
cells line = do
  let inner = strip line
  guard (starts_with inner (txt "|") && ends_with inner (txt "|")) not_a_row
  ok (map strip (split_on (txt " | ") (drop 1 (take (length inner - 1) inner))))

abbrev pub is_rule_mark : ℕ → Bool
is_rule_mark c = (c == 45) || (c == 58) || (c == 124) || (c == 32)

-- `re.match(r"^\|[-:| ]+\|$", s)`
unfoldable pub is_rule : Text → Bool
unfolding starts_with txt
is_rule s =
    starts_with s (txt "|") && ends_with s (txt "|") && ltb 2 (length s) && every is_rule_mark s

abbrev pub is_row : Text → Bool
unfolding starts_with txt
is_row s = starts_with s (txt "|")

abbrev pub under_rule : List Text → Bool
under_rule [] = false
under_rule (l ∷ ls) = is_rule (strip l)

-- The lines up to the first that is not a row of a table.
unfoldable pub row_lines : List Text → List Text
unfolding starts_with txt
row_lines [] = []
row_lines (l ∷ ls) = let rest = row_lines ls in if is_row l then l ∷ rest else []

unfoldable pub cells_of : List Text → Result (List (List Text))
unfolding cells
cells_of [] = ok []
cells_of (l ∷ ls) = let rest = cells_of ls in do ok ((← cells l) ∷ (← rest))

-- `read_tables(lines, start, end)` from line `i` on, where `skip` lines of a table are still to be
-- passed.
unfoldable pub tables_from : ℕ → ℕ → List Text → Result (List (ℕ × List (List Text)))
unfolding is_rule row_lines cells_of strip
tables_from i skip [] = ok []
tables_from i (suc skip) (l ∷ ls) = tables_from (i + 1) skip ls
tables_from i zero (l ∷ ls) =
    let body = row_lines (drop 1 ls) in
    let found = (do
      head ← cells l
      rows ← cells_of body
      more ← tables_from (i + 1) (1 + length body) ls
      ok ((i, head ∷ rows) ∷ more)) in
    let missed = tables_from (i + 1) 0 ls in if is_row l && under_rule ls then found else missed

unfoldable pub read_tables : List Text → Result (List (ℕ × List (List Text)))
unfolding tables_from
read_tables lines = tables_from 0 0 lines

-- `block(lines, i)`, of the lines behind the heading: how many lines go before the next heading.
unfoldable pub block : List Text → ℕ
unfolding starts_with txt
block [] = 0
block (l ∷ ls) = let more = block ls in if starts_with l (txt "#") then 0 else more + 1
