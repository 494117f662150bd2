-- ===== src/Check/DatesRead.antt =====
-- `pdate` of the checker reads back every date of the year that `fdate` prints.
use rukka_folio.Prelude.{
  ◌≡◌, refl, ℕ, zero, suc, ◌+◌, ◌<◌, ◌≤◌, Bool, true, false, ◌&&◌, ◌==◌, arith, and-left, and-right,
  ltb, ltb→lt, Bool-cases, inl, inr, starts_with, same, same→eq,
}
use rukka_folio.Dates.{Date, D, fdate, fy_start, fy_end}
use rukka_folio.Fault.{Result, ok, err}
use rukka_folio.Check.Cells.{strip}
use rukka_folio.Check.Entries.{pdate}

-- The result is this date.
is_date : Date → Result Date → Bool
is_date d (ok e) = d == e
is_date d (err fault) = false

reads : Date → Bool
reads d = is_date d (pdate (fdate d)) && same (strip (fdate d)) (fdate d)

-- The dates from `d` on are read back, one after another.
all_read : ℕ → Date → Bool
all_read zero d = true
all_read (suc left) d = reads d && all_read left (d + 1)

-- The three parts of the year are run.
first_part : all_read 122 739342 ≡ true
unfolding all_read reads is_date pdate fdate starts_with same strip
first_part = refl

second_part : all_read 122 739464 ≡ true
unfolding all_read reads is_date pdate fdate starts_with same strip
second_part = refl

third_part : all_read 121 739586 ≡ true
unfolding all_read reads is_date pdate fdate starts_with same strip
third_part = refl

at : (left : ℕ) (s d : Date) → all_read left s ≡ true → s ≤ d → d < s + left → reads d ≡ true
unfolding all_read
at zero s d h low high = absurd (omega arith)
at (suc left) s d h low high = elim (Bool-cases (d == s)) [
  | inl e ↦ let same_day : d ≡ s = ground arith in rw same_day (and-left (reads s) _ h)
  | inr e ↦
      let later : s + 1 ≤ d = ground arith in
      at left (s + 1) d (and-right (reads s) _ h) later (omega arith)
]

reads-ok : (d : Date) (r : Result Date) → is_date d r ≡ true → r ≡ ok d
unfolding is_date
reads-ok d (err fault) h = cc
reads-ok d (ok e) h = let same_day : d ≡ e = ground arith in rw same_day refl

year_read : (d : Date) → fy_start ≤ d → d ≤ fy_end → reads d ≡ true
unfolding fy_start fy_end D
year_read d low high = elim (Bool-cases (ltb d 739464)) [
  | inl e ↦ at 122 739342 d first_part low (ltb→lt d 739464 e)
  | inr e ↦ elim (Bool-cases (ltb d 739586)) [
    | inl k ↦ at 122 739464 d second_part (not_below d 739464 e) (ltb→lt d 739586 k)
    | inr k ↦ at 121 739586 d third_part (not_below d 739586 k) (omega arith)
  ]
]
  where
    not_below : (a b : ℕ) → ltb a b ≡ false → b ≤ a
    not_below a b h = ground arith

-- Every date of the accounting year that the builder's `fdate` prints, the checker's `pdate` reads back.
pub pdate-fdate : (d : Date) → fy_start ≤ d → d ≤ fy_end → pdate (fdate d) ≡ ok d
unfolding reads
pdate-fdate d low high =
    reads-ok d (pdate (fdate d))
      (and-left _ (same (strip (fdate d)) (fdate d)) (year_read d low high))

-- A printed date has no blank at its ends.
pub strip-fdate : (d : Date) → fy_start ≤ d → d ≤ fy_end → strip (fdate d) ≡ fdate d
unfolding reads
strip-fdate d low high =
    same→eq (strip (fdate d)) (fdate d)
      (and-right (is_date d (pdate (fdate d))) _ (year_read d low high))
