-- ===== src/Check/Figures.antt =====
-- A printed amount is a figure that `split_cell` looks for, and has none of the marks of a cell in it.
use rukka_folio.Prelude.{
  ◌≡◌, refl, ◌∙◌, ap, ℕ, suc, ◌/◌, ◌%◌, ◌<◌, ◌==◌, ltb, Bool, true, false, ◌||◌, [], ◌∷◌, length,
  every, pos, Text, All, arith, inl, inr, str_of, pad2,
}
use rukka_folio.Money.{fmt, fmt_abs, grouped}
use rukka_folio.Report.BalanceSheet.Commas.{without_commas-digits, grouped-without_commas}
use rukka_folio.Report.BalanceSheet.Partners.{without_commas}
use rukka_folio.Report.BalanceSheet.ReadBack.{fmt_abs-cases}
use rukka_folio.Report.BalanceSheet.Digits.{
  IsDigit, All-map, pad2-digits, str_of-digits, str_of-length,
}
use rukka_folio.Check.Cells.{is_digit}
use rukka_folio.Check.Plain.{IsPrinted}
use rukka_folio.Check.Groups.{every-digits}
use rukka_folio.Check.ReadBack.{
  grouped-All, fmt_abs-IsPrinted, no_point, split_point-none, split_point-some, two_digits,
  fmt_with-pos,
}
use rukka_folio.Check.Entries.{is_figure}
use rukka_folio.Check.NamesRead.{NoMarks, NoRupees}

abbrev in_figure : ℕ → Bool
in_figure c = is_digit c || (c == 44)

figure-digit : (c : ℕ) → IsDigit c → in_figure c ≡ true
figure-digit c (low, high) = ground arith

every-All : (s : Text) → All (λ c. in_figure c ≡ true) s → every in_figure s ≡ true
every-All [] h = refl
every-All (c ∷ s) h = rw (h.0, every-All s h.1) refl

some_left : (s t : Text) → without_commas s ≡ t → 0 < length t → ltb 0 (length s) ≡ true
unfolding without_commas
some_left [] t e h = let short : 0 ≡ length t = ap length e in absurd (omega arith)
some_left (c ∷ s) t e h = ground arith

grouped_some : (r : ℕ) → ltb 0 (length (grouped (str_of r))) ≡ true
grouped_some r =
    some_left (grouped (str_of r)) (str_of r)
      (grouped-without_commas (str_of r) ∙ without_commas-digits (str_of r) (str_of-digits r))
      (str_of-length r)

pub is_figure-fmt_abs : (n : ℕ) → is_figure (fmt_abs n) ≡ true
unfolding is_figure
is_figure-fmt_abs n =
    let r = n / 100 in
    let whole = every-All (grouped (str_of r)) (grouped-All _ r refl figure-digit) in
    let bare = grouped-All (λ c. (c == 46) ≡ false) r refl no_point in
    elim (fmt_abs-cases n) [
      | inl (z, e) ↦ rw (e, split_point-none (grouped (str_of r)) bare, grouped_some r, whole) refl
      | inr e ↦
          rw
            (
              e,
              split_point-some (grouped (str_of r)) (pad2 (n % 100)) bare,
              grouped_some r,
              whole,
              two_digits (n % 100) (omega arith),
              every-digits (pad2 (n % 100)) (pad2-digits (n % 100)),
            )
            refl
    ]

printed-marks : (c : ℕ) → IsPrinted c → ((c == 60) ≡ false) × ((c == 8377) ≡ false)
printed-marks c (inl (low, high)) = (ground arith, ground arith)
printed-marks c (inr e) = rw e (refl, refl)

pub rupees_of : (s : Text) → NoMarks s → NoRupees s
rupees_of [] h = tt
rupees_of (c ∷ s) h = (h.0.1, rupees_of s h.1)

pub fmt_abs-NoMarks : (n : ℕ) → NoMarks (fmt_abs n)
fmt_abs-NoMarks n = All-map printed-marks (fmt_abs n) (fmt_abs-IsPrinted n)

-- An amount above nil, as it is printed.
pub amount_text : (n : ℕ) → fmt (pos (suc n)) ≡ fmt_abs (suc n)
unfolding fmt
amount_text n = fmt_with-pos true false n
