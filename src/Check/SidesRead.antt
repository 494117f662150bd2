-- ===== src/Check/SidesRead.antt =====
-- `split_cell` of the checker reads back the cell that `side_cell` prints, line by line.
use rukka_folio.Prelude.{
  ◌≡◌, refl, sym, ◌∙◌, ap, ℕ, suc, ◌==◌, true, false, List, [], ◌∷◌, ◌++◌, length, map, ℤ, pos,
  Text, txt, join, some, All, arith, sum_by, +ℤ-zero, append_assoc,
}
use rukka_folio.Money.{fmt, fmt_abs}
use rukka_folio.Fault.{ok}
use rukka_folio.Book.{Line}
use rukka_folio.Report.Markdown.{side_cell, named_amount}
use rukka_folio.Report.BalanceSheet.Digits.{All-append}
use rukka_folio.Check.Cells.{before_space, rstrip, strip, paise}
use rukka_folio.Check.Plain.{printed-Quiet, rstrip-Quiet, before_space-quiet}
use rukka_folio.Check.Tables.{split_on}
use rukka_folio.Check.ReadBack.{paise-fmt_with, fmt_abs-IsPrinted, fmt_with-pos}
use rukka_folio.Check.Entries.{split_named, named_parts, split_cell}
use rukka_folio.Check.NamesRead.{
  IsName, NoMarks, NoTags, Begins, strip-Begins, no_tags, split_named-NoRupees, split_named-amount,
  break, split-join, behind-NoTags, break-found,
}
use rukka_folio.Check.Figures.{is_figure-fmt_abs, rupees_of, fmt_abs-NoMarks, amount_text}

NoTags-append : (s t : Text) → NoTags s → NoTags t → NoTags (s ++ t)
NoTags-append = All-append (λ c. (c == 60) ≡ false)

-- The part of a cell for one line.
part : Text → ℕ → Text
part n a = n ++ (32 ∷ 8377 ∷ fmt_abs a)

part-NoTags : (n : Text) (a : ℕ) → NoMarks n → NoTags (part n a)
unfolding part
part-NoTags n a h =
    NoTags-append n (32 ∷ 8377 ∷ fmt_abs a) (no_tags n h)
      (refl, (refl, no_tags (fmt_abs a) (fmt_abs-NoMarks a)))

Begins-append : (s t : Text) → Begins s → Begins (s ++ t)
Begins-append [] t h = absurd h
Begins-append (c ∷ s) t h = h

rstrip-append :
    (s : Text) (c : ℕ) (t : Text) → rstrip (c ∷ t) ≡ c ∷ t → rstrip (s ++ (c ∷ t)) ≡ s ++ (c ∷ t)
unfolding rstrip
rstrip-append [] c t h = h
rstrip-append (d ∷ []) c t h = rw h refl
rstrip-append (d ∷ e ∷ s) c t h = ap (before_space d) (rstrip-append (e ∷ s) c t h)

rstrip_rupees : (s : Text) → rstrip s ≡ s → rstrip (32 ∷ 8377 ∷ s) ≡ 32 ∷ 8377 ∷ s
unfolding rstrip
rstrip_rupees s h = rw (h, before_space-quiet 8377 s refl) refl

strip-part : (n : Text) (a : ℕ) → IsName n → strip (part n a) ≡ part n a
unfolding part
strip-part n a h =
    let quiet = printed-Quiet (fmt_abs a) (fmt_abs-IsPrinted a) in
    strip-Begins (n ++ (32 ∷ 8377 ∷ fmt_abs a)) (Begins-append n _ (h.begins))
      (rstrip-append n 32 (8377 ∷ fmt_abs a) (rstrip_rupees (fmt_abs a) (rstrip-Quiet _ quiet)))

split_named-part : (n : Text) (a : ℕ) → split_named (part n a) ≡ some (n, fmt_abs a)
unfolding part
split_named-part n a =
    split_named-amount n (fmt_abs a) (rupees_of (fmt_abs a) (fmt_abs-NoMarks a))
      (is_figure-fmt_abs a)

paise-fmt_abs : (k : ℕ) → paise (fmt_abs (suc k)) ≡ ok (pos (suc k))
paise-fmt_abs k =
    ap paise (sym (fmt_with-pos true false k)) ∙ paise-fmt_with true false (pos (suc k))

-- A line that a cell can show: a name of an account, and an amount above nil.
pub record IsShown (x : Line) : Type 0 where
  pub name : IsName x.0
  pub above : ℕ
  pub amount : x.1 ≡ pos (suc above)

named_amount-part : (x : Line) (h : IsShown x) → named_amount x ≡ part x.0 (suc h.above)
unfolding part txt
named_amount-part x h = rw (h.amount, amount_text h.above) refl

read_part :
    (x : Line) (ps : List Text) (ls : List Line)
    → IsShown x
    → named_parts ps ≡ ok ls
    → named_parts (named_amount x ∷ ps) ≡ ok (x ∷ ls)
unfolding named_parts
read_part x ps ls h more =
    rw
      (
        named_amount-part x h,
        strip-part x.0 (suc h.above) h.name,
        split_named-part x.0 (suc h.above),
        paise-fmt_abs h.above,
        more,
        strip-Begins x.0 (h.name.begins) (h.name.ends),
        ← h.amount,
      )
      refl

read_parts : (ls : List Line) → All IsShown ls → named_parts (map named_amount ls) ≡ ok ls
unfolding named_parts
read_parts [] h = refl
read_parts (x ∷ ls) h = read_part x (map named_amount ls) ls h.0 (read_parts ls h.1)

parts-NoTags : (ls : List Line) → All IsShown ls → All NoTags (map named_amount ls)
parts-NoTags [] h = tt
parts-NoTags (x ∷ ls) h = (
  rw (named_amount-part x h.0) (part-NoTags x.0 (suc h.0.above) (h.0.name.plain)),
  parts-NoTags ls h.1,
)

many : (n : ℕ) → (suc (suc n) == 1) ≡ false
many n = ground arith

side_cell-many :
    (x y : Line) (ls : List Line)
    → side_cell (x ∷ y ∷ ls) ≡ join break (map named_amount (x ∷ y ∷ ls))
unfolding side_cell break
side_cell-many x y ls = rw (many (length ls)) refl

split_many :
    (x y : Line) (ls : List Line) (amount : ℤ)
    → All IsShown (x ∷ y ∷ ls)
    → split_cell (join break (map named_amount (x ∷ y ∷ ls))) amount ≡ ok (x ∷ y ∷ ls)
unfolding split_cell split_on join fmt break
split_many x y ls amount h =
    let tags = parts-NoTags (x ∷ y ∷ ls) h in
    rw
      (
        break-found (named_amount x) (join break (map named_amount (y ∷ ls))) tags.0,
        split-join (named_amount x) (map named_amount (y ∷ ls)) tags,
      )
      (read_parts (x ∷ y ∷ ls) h)

-- The cell that `side_cell` prints for lines with amounts above nil, under names without `<` and `₹`
-- and without blanks at their ends, reads back as those lines, whatever their number; the amount that
-- `split_cell` is given is their total.
pub split_cell-side_cell :
    (x : Line) (ls : List Line) (amount : ℤ)
    → All IsShown (x ∷ ls)
    → sum_by (λ l. l.1) (x ∷ ls) ≡ amount
    → split_cell (side_cell (x ∷ ls)) amount ≡ ok (x ∷ ls)
unfolding split_cell side_cell join
split_cell-side_cell x [] amount h total =
    rw
      (
        behind-NoTags (txt "br>") x.0 (no_tags x.0 (h.0.name.plain)),
        split_named-NoRupees x.0 (rupees_of x.0 (h.0.name.plain)),
        strip-Begins x.0 (h.0.name.begins) (h.0.name.ends),
        ← total,
        +ℤ-zero x.1,
      )
      refl
split_cell-side_cell x (y ∷ ls) amount h total =
    ap (λ s. split_cell s amount) (side_cell-many x y ls) ∙ split_many x y ls amount h

ends_part : (x : Line) → IsShown x → rstrip (named_amount x) ≡ named_amount x
unfolding part
ends_part x h =
    let quiet = printed-Quiet (fmt_abs (suc h.above)) (fmt_abs-IsPrinted (suc h.above)) in
    rw (named_amount-part x h) (
      rstrip-append x.0 32 (8377 ∷ fmt_abs (suc h.above))
        (rstrip_rupees (fmt_abs (suc h.above)) (rstrip-Quiet _ quiet)))

ends_cons : (s : Text) → rstrip s ≡ s → Begins s → (p : Text) → rstrip (p ++ s) ≡ p ++ s
ends_cons [] e b p = absurd b
ends_cons (c ∷ s) e b p = rstrip-append p c s e

Begins-part : (x : Line) → IsShown x → Begins (named_amount x)
Begins-part x h = Begins-append x.0 _ (h.name.begins)

Begins-join :
    (x : Line) (ls : List Line) → IsShown x → Begins (join break (map named_amount (x ∷ ls)))
unfolding join break
Begins-join x [] h = Begins-part x h
Begins-join x (y ∷ ls) h = Begins-append (named_amount x) _ (Begins-part x h)

ends_join :
    (x : Line) (ls : List Line)
    → All IsShown (x ∷ ls)
    → rstrip (join break (map named_amount (x ∷ ls))) ≡ join break (map named_amount (x ∷ ls))
unfolding join
ends_join x [] h = ends_part x h.0
ends_join x (y ∷ ls) h =
    rw (sym (append_assoc (named_amount x) break (join break (map named_amount (y ∷ ls))))) (
      ends_cons (join break (map named_amount (y ∷ ls))) (ends_join y ls h.1)
        (Begins-join y ls h.1.0) (named_amount x ++ break))

-- A cell has no blank at its ends.
pub strip-side_cell :
    (x : Line) (ls : List Line)
    → All IsShown (x ∷ ls)
    → strip (side_cell (x ∷ ls)) ≡ side_cell (x ∷ ls)
unfolding side_cell join
strip-side_cell x [] h = strip-Begins x.0 (h.0.name.begins) (h.0.name.ends)
strip-side_cell x (y ∷ ls) h = rw (side_cell-many x y ls) (
    strip-Begins (join break (map named_amount (x ∷ y ∷ ls))) (Begins-join x (y ∷ ls) h.0)
      (ends_join x (y ∷ ls) h))
