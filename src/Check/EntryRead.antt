-- ===== src/Check/EntryRead.antt =====
-- `read_entry` of the checker reads a row of the Day Book back as the entry.
use rukka_folio.Prelude.{
  ◌≡◌, ◌≢◌, refl, sym, ◌∙◌, ap, ℕ, zero, suc, ◌≤◌, Bool, true, false, if◌then◌else◌, List, [], ◌∷◌,
  ◌++◌, length, keep, map, ℤ, pos, negsuc, sum_by, is_pos, is_neg, dr_of, Text, txt, same, some,
  All, arith, Bool-cases, inl, inr, every, ◌&&◌, and-left, and-right, same→eq,
}
use rukka_folio.Dates.{fy_start, fy_end}
use rukka_folio.Money.{fmt, fmt_with, fmt_abs}
use rukka_folio.Fault.{ok}
use rukka_folio.Vtypes.{Words, word_of, plain_vtype}
use rukka_folio.Book.{Account, Line, Voucher, amount, dr_lines, cr_lines}
use rukka_folio.Entry.Known.{IsEntry}
use rukka_folio.Report.Markdown.{side_cell}
use rukka_folio.Report.Daybook.{daybook_row}
use rukka_folio.Check.Cells.{strip, paise}
use rukka_folio.Check.Plain.{printed-Quiet, strip-Quiet}
use rukka_folio.Check.ReadBack.{paise-fmt_with, fmt_abs-IsPrinted, fmt_with-pos, fmt_with-negsuc}
use rukka_folio.Check.Book.Refined.{read_of, not_nil}
use rukka_folio.Check.Entries.{split_cell, moved_mark, unmarked, read_entry}
use rukka_folio.Check.DatesRead.{pdate-fdate, strip-fdate}
use rukka_folio.Check.SidesRead.{IsShown, split_cell-side_cell, strip-side_cell}
use rukka_folio.Check.SidesTotal.{
  Named, turn, dr-IsShown, cr-IsShown, dr_sum, cr_sum, above_nil, sides_level,
}

-- The row's type cell, with and without the mark, once `cells` stripped it, gives the type back.
typed : Text → Bool
typed word =
    same (unmarked (strip (word ++ moved_mark))) word && same (unmarked (strip (word ++ []))) word

typed-word_of :
    (v : Text) (table : Words) (word : Text)
    → every (λ p. typed p.1) table ≡ true
    → word_of v table ≡ some word
    → typed word ≡ true
unfolding word_of
typed-word_of v [] word h e = cc
typed-word_of v ((k, w) ∷ ws) word h e = elim (Bool-cases (same k v)) [
  | inl m ↦ ap typed (sym (some-injective (rw m at e))) ∙ and-left (typed w) _ h
  | inr m ↦ typed-word_of v ws word (and-right (typed w) _ h) (rw m at e)
]
  where
    some-injective : {a b : Text} → some a ≡ some b → a ≡ b
    some-injective e = cc

plain_typed : every (λ p. typed p.1) plain_vtype ≡ true
unfolding plain_vtype txt typed moved_mark strip same
plain_typed = refl

type_read :
    (v word : Text) (moved : Bool)
    → word_of v plain_vtype ≡ some word
    → unmarked (strip (word ++ (if moved then [] else moved_mark))) ≡ word
unfolding typed
type_read v word true e = same→eq _ word (
    and-right (same (unmarked (strip (word ++ moved_mark))) word) _
      (typed-word_of v plain_vtype word plain_typed e))
type_read v word false e = same→eq _ word (
    and-left _ (same (unmarked (strip (word ++ []))) word)
      (typed-word_of v plain_vtype word plain_typed e))

strip-fmt : (x : ℤ) → strip (fmt_with true false x) ≡ fmt_with true false x
unfolding fmt_with strip
strip-fmt (pos zero) = refl
strip-fmt (pos (suc k)) =
    rw (fmt_with-pos true false k)
      (strip-Quiet (fmt_abs (suc k)) (printed-Quiet _ (fmt_abs-IsPrinted (suc k))))
strip-fmt (negsuc k) = rw (fmt_with-negsuc true false k) (
    strip-Quiet (8722 ∷ fmt_abs (suc k))
      (printed-Quiet (8722 ∷ fmt_abs (suc k)) (inr refl, fmt_abs-IsPrinted (suc k))))

amount_read : (x : ℤ) → paise (strip (fmt x)) ≡ ok x
unfolding fmt
amount_read x = ap paise (strip-fmt x) ∙ paise-fmt_with true false x

-- A cell with lines to show reads back, stripped or not.
side_read :
    (ls : List Line) (k : ℕ)
    → All IsShown ls
    → sum_by (λ l. l.1) ls ≡ pos (suc k)
    → split_cell (strip (side_cell ls)) (pos (suc k)) ≡ ok ls
side_read [] k h total = cc
side_read (x ∷ ls) k h total =
    ap (λ s. split_cell s (pos (suc k))) (strip-side_cell x ls h)
    ∙ split_cell-side_cell x ls (pos (suc k)) h total

-- An entry that the Day Book can show: its names can stand in a cell, and its number and its note have
-- no blank at their ends.
pub record IsReadable (w : Voucher) : Type 0 where
  pub names : Named w.lines
  pub number : strip w.vid ≡ w.vid
  pub note : strip w.narration ≡ w.narration
  pub from : fy_start ≤ w.date
  pub up_to : w.date ≤ fy_end

pub amount_above :
    (ls : List Line)
    → 2 ≤ length ls
    → All (λ l. l.1 ≢ pos 0) ls
    → sum_by (λ l. l.1) ls ≡ pos 0
    → (k : ℕ) × (sum_by (λ l. dr_of l.1) ls ≡ pos (suc k))
amount_above [] long nil total = absurd (omega arith)
amount_above (l ∷ ls) long nil total = above_nil l ls nil.0 total

-- A row that the Day Book prints for a validated entry, with its type's plain word, each cell without
-- the blanks at its ends, is read back as that entry: its date, its number, the plain word as its
-- type, its lines with the debits first, its amount and its note.
pub read_entry-daybook_row :
    (accounts : List Account) (w : Voucher) (word : Text) (moved : Bool)
    → IsEntry accounts w
    → IsReadable w
    → word_of w.vtype plain_vtype ≡ some word
    → read_entry (map strip (daybook_row w word moved)) ≡ ok (record (read_of w) { vtype = word })
unfolding read_entry daybook_row dr_lines cr_lines amount
read_entry-daybook_row accounts w word moved entry h e =
    let (k, above) =
      amount_above w.lines entry.two_lines (not_nil accounts w.lines entry.known) entry.balanced in
    let debits =
      side_read (keep (λ l. is_pos l.1) w.lines) k (dr-IsShown w.lines h.names)
        (dr_sum w.lines ∙ above) in
    let credits =
      side_read (map turn (keep (λ l. is_neg l.1) w.lines)) k (cr-IsShown w.lines h.names)
        (cr_sum w.lines ∙ (sides_level w.lines entry.balanced ∙ above)) in
    rw
      (
        amount_read (sum_by (λ l. dr_of l.1) w.lines),
        above,
        debits,
        credits,
        strip-fdate w.date h.from h.up_to,
        pdate-fdate w.date h.from h.up_to,
        h.number,
        h.note,
        type_read w.vtype word moved e,
        h.note,
      )
      refl
