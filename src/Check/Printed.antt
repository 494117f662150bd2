-- ===== src/Check/Printed.antt =====
-- What `read_tables` reads back from a table that `table` prints.
use rukka_folio.Prelude.{
  ◌≡◌, refl, ◌∙◌, ap, ℕ, suc, ◌+◌, Bool, true, false, List, [], ◌∷◌, ◌++◌, length, map, every, All,
  Text, txt, join, starts_with, arith, length-append, ◌<◌, and-left, and-right,
}
use rukka_folio.Fault.{ok, ◌>>=◌}
use rukka_folio.Report.Markdown.{row_line, table, Align, separator, l, r, c}
use rukka_folio.Check.Cells.{strip}
use rukka_folio.Check.Tables.{
  is_rule_mark, is_rule, is_row, under_rule, row_lines, cells_of, tables_from,
}
use rukka_folio.Check.Rows.{barless, All-barless, NoBars, strip_bars, ends_with_bar, cells-row_line}

-- The cells of a row: there is one at least, and no bar in any.
abbrev pub IsCells : List Text → Type 0
IsCells [] = ⊥
IsCells (x ∷ xs) = All NoBars (x ∷ xs)

-- The test for it.
unfoldable pub cells_barless : List Text → Bool
unfolding barless
cells_barless [] = false
cells_barless (x ∷ xs) = every barless (x ∷ xs)

pub IsCells-barless : (rows : List (List Text)) → every cells_barless rows ≡ true → All IsCells rows
unfolding cells_barless
IsCells-barless [] h = tt
IsCells-barless ([] ∷ rows) h = cc
IsCells-barless ((x ∷ xs) ∷ rows) h = (
  All-barless (x ∷ xs) (and-left (every barless (x ∷ xs)) _ h),
  IsCells-barless rows (and-right (every barless (x ∷ xs)) _ h),
)

-- What follows a table does not go on with it.
abbrev pub IsAfter : List Text → Type 0
IsAfter [] = Unit {0}
IsAfter (x ∷ xs) = is_row x ≡ false

is_row-row_line : (xs : List Text) → is_row (row_line xs) ≡ true
unfolding row_line starts_with txt
is_row-row_line xs = refl

cells_of-rows :
    (rows : List (List Text))
    → All IsCells rows
    → cells_of (map row_line rows) ≡ ok (map (map strip) rows)
unfolding cells_of
cells_of-rows [] h = refl
cells_of-rows ([] ∷ rows) h = absurd h.0
cells_of-rows ((x ∷ xs) ∷ rows) h = rw (cells-row_line x xs h.0, cells_of-rows rows h.1) refl

row_lines-after : (after : List Text) → IsAfter after → row_lines after ≡ []
unfolding row_lines
row_lines-after [] h = refl
row_lines-after (x ∷ xs) h = rw h refl

row_lines-rows :
    (rows : List (List Text)) (after : List Text)
    → IsAfter after
    → row_lines (map row_line rows ++ after) ≡ map row_line rows
unfolding row_lines
row_lines-rows [] after h = row_lines-after after h
row_lines-rows (xs ∷ rows) after h = rw (is_row-row_line xs, row_lines-rows rows after h) refl

every-append :
    (s t : Text)
    → every is_rule_mark s ≡ true
    → every is_rule_mark t ≡ true
    → every is_rule_mark (s ++ t) ≡ true
every-append [] t h k = k
every-append (x ∷ s) t h k = ground (arith, every-append s t)

separator_marks : (a : Align) → every is_rule_mark (separator a) ≡ true
unfolding txt
separator_marks l = refl
separator_marks r = refl
separator_marks c = refl

-- The line under the head, between its bars.
marks : List Align → Text
unfolding txt
marks aligns = join (txt "|") (map separator aligns)

every-marks : (aligns : List Align) → every is_rule_mark (marks aligns) ≡ true
unfolding marks join txt
every-marks [] = refl
every-marks (a ∷ []) = separator_marks a
every-marks (a ∷ b ∷ aligns) =
    every-append (separator a) _ (separator_marks a) (every-marks (b ∷ aligns))

marks_some : (a : Align) (aligns : List Align) → 0 < length (marks (a ∷ aligns))
unfolding marks join txt
marks_some l [] = omega arith
marks_some r [] = omega arith
marks_some c [] = omega arith
marks_some l (b ∷ aligns) = omega arith
marks_some r (b ∷ aligns) = omega arith
marks_some c (b ∷ aligns) = omega arith

is_rule-marks :
    (s : Text)
    → 0 < length s
    → every is_rule_mark s ≡ true
    → is_rule (strip (124 ∷ (s ++ (124 ∷ [])))) ≡ true
unfolding is_rule starts_with txt
is_rule-marks s some_marks all_marks =
    rw
      (
        strip_bars s,
        ends_with_bar (124 ∷ s),
        length-append s (124 ∷ []),
        every-append s (124 ∷ []) all_marks refl,
      )
      (ground arith)

-- The lines of a table are passed, one after another.
passed :
    (i : ℕ) (lines after : List Text)
    → tables_from i (length lines) (lines ++ after) ≡ tables_from (i + length lines) 0 after
unfolding tables_from
passed i [] after = ap (λ k. tables_from k 0 after) (omega arith)
passed i (x ∷ lines) after =
    passed (i + 1) lines after ∙ ap (λ k. tables_from k 0 after) (omega arith)

length-map : (rows : List (List Text)) → length (map row_line rows) ≡ length rows
length-map [] = refl
length-map (x ∷ rows) = ap suc (length-map rows)

is_row-bar : (s : Text) → is_row (124 ∷ s) ≡ true
unfolding starts_with txt
is_row-bar s = refl

-- The line under the head, as the printer writes it.
rule_of : List Align → Text
unfolding marks
rule_of aligns = 124 ∷ (marks aligns ++ (124 ∷ []))

table_lines :
    (head : List Text) (aligns : List Align) (rows : List (List Text))
    → table head aligns rows ≡ row_line head ∷ rule_of aligns ∷ map row_line rows
unfolding table rule_of marks txt
table_lines head aligns rows = refl

under_rule-rule_of :
    (a : Align) (aligns : List Align) (lines : List Text)
    → under_rule (rule_of (a ∷ aligns) ∷ lines) ≡ true
unfolding rule_of
under_rule-rule_of a aligns lines =
    is_rule-marks (marks (a ∷ aligns)) (marks_some a aligns) (every-marks (a ∷ aligns))

table_passed :
    (i : ℕ) (rule : Text) (rows : List (List Text)) (after : List Text)
    → tables_from (i + 1) (1 + length (map row_line rows)) (rule ∷ (map row_line rows ++ after))
      ≡ tables_from (i + (2 + length rows)) 0 after
table_passed i rule rows after =
    ap (λ k. tables_from (i + 1) k (rule ∷ (map row_line rows ++ after))) (omega arith)
    ∙ (passed (i + 1) (rule ∷ map row_line rows) after
        ∙ ap (λ k. tables_from k 0 after) (omega (arith, length-map rows)))

module _ (x : Text) (head : List Text) (a : Align) (aligns : List Align) (rows : List (List Text))
    (after : List Text) (head-IsCells : IsCells (x ∷ head)) (rows-IsCells : All IsCells rows)
    (after-IsAfter : IsAfter after) where
  -- A table of at least one column, whose rows have at least one cell each and whose cells have no bar
  -- in them, followed by nothing or by a line that does not begin with a bar, reads back from its
  -- printed lines as its head and its rows, with the number of its first line, and the reading goes on
  -- behind it; each cell comes without the blanks at its ends. The alignments may be more or fewer than
  -- the columns, but there is at least one.
  pub tables_from-table :
      (i : ℕ)
      → tables_from i 0 (table (x ∷ head) (a ∷ aligns) rows ++ after) ≡ (do
        more ← tables_from (i + (2 + length rows)) 0 after
        ok ((i, map strip (x ∷ head) ∷ map (map strip) rows) ∷ more))
  unfolding tables_from
  tables_from-table i =
      rw
        (
          table_lines (x ∷ head) (a ∷ aligns) rows,
          is_row-row_line (x ∷ head),
          under_rule-rule_of a aligns (map row_line rows ++ after),
          row_lines-rows rows after after-IsAfter,
          cells-row_line x head head-IsCells,
          cells_of-rows rows rows-IsCells,
          table_passed i (rule_of (a ∷ aligns)) rows after,
        )
        refl
