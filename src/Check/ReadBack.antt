-- ===== src/Check/ReadBack.antt =====
-- `paise` of the checker reads back what `fmt` of the builder prints.
use rukka_folio.Prelude.{
  starts_with, none, some, ◌≡◌, refl, ◌∙◌, ap, ℕ, zero, suc, ◌+◌, ◌*◌, ◌/◌, ◌%◌, ◌<◌, ◌==◌, Bool,
  true, false, Bool-cases, inl, inr, [], ◌∷◌, ◌++◌, All, Text, length, str_of, pad2, same, same→eq,
  arith, ℤ, pos, negsuc, neg,
}
use rukka_folio.Money.{grouped, fmt_abs, fmt_with, em_dash}
use rukka_folio.Fault.{Fault, err, value_error, ok}
use rukka_folio.Report.BalanceSheet.Partners.{int_of, without_commas}
use rukka_folio.Report.BalanceSheet.Digits.{
  IsDigit, All-append, All-map, str_of-digits, str_of-length, int_of-str_of, int_of-pad2,
  pad2-digits, pad2-two,
}
use rukka_folio.Report.BalanceSheet.Commas.{without_commas-digits, grouped-without_commas}
use rukka_folio.Report.BalanceSheet.ReadBack.{fmt_abs-cases, not_zero, above_zero, neg-suc}
use rukka_folio.Check.Cells.{
  strip, clean, without_equals, without_rupees, without_signs, has_sign, is_minus, split_point,
  whole_ok, amount_of, paise,
}
use rukka_folio.Check.Plain.{
  IsPrinted, printed-Quiet, strip-Quiet, clean-Quiet, without_equals-Quiet, without_rupees-Quiet,
  All-commas,
}
use rukka_folio.Check.Groups.{every-digits, grouped-whole_ok}

pub digit-IsPrinted : (c : ℕ) → IsDigit c → IsPrinted c
digit-IsPrinted c (low, high) = inl (omega arith, omega arith)

digits-IsPrinted : (s : Text) → All IsDigit s → All IsPrinted s
digits-IsPrinted s h = All-map digit-IsPrinted s h

-- The characters of a grouped number.
pub grouped-All :
    (P : ℕ → Type 0) (r : ℕ) → P 44 → ((c : ℕ) → IsDigit c → P c) → All P (grouped (str_of r))
grouped-All P r comma digit =
    let digits = str_of-digits r in
    let bare = grouped-without_commas (str_of r) ∙ without_commas-digits (str_of r) digits in
    All-commas P (grouped (str_of r)) comma (rw bare (All-map digit (str_of r) digits))

pub fmt_abs-IsPrinted : (n : ℕ) → All IsPrinted (fmt_abs n)
fmt_abs-IsPrinted n =
    let whole = grouped-All IsPrinted (n / 100) (inl (omega arith, omega arith)) digit-IsPrinted in
    elim (fmt_abs-cases n) [
      | inl (z, e) ↦ rw e whole
      | inr e ↦ rw e (
          All-append IsPrinted (grouped (str_of (n / 100))) (46 ∷ pad2 (n % 100)) whole (
            inl (omega arith, omega arith),
            digits-IsPrinted (pad2 (n % 100)) (pad2-digits (n % 100)),
          ))
    ]

pub no_point : (c : ℕ) → IsDigit c → (c == 46) ≡ false
no_point c (low, high) = ground arith

pub split_point-none : (s : Text) → All (λ c. (c == 46) ≡ false) s → split_point s ≡ (s, none)
unfolding split_point
split_point-none [] h = refl
split_point-none (c ∷ s) h = rw (split_point-none s h.1, h.0) refl

pub split_point-some :
    (s t : Text) → All (λ c. (c == 46) ≡ false) s → split_point (s ++ (46 ∷ t)) ≡ (s, some t)
unfolding split_point
split_point-some [] t h = refl
split_point-some (c ∷ s) t h = rw (split_point-some s t h.1, h.0) refl

bare_whole : (r : ℕ) → int_of (without_commas (grouped (str_of r))) ≡ ok r
bare_whole r =
    ap int_of
      (grouped-without_commas (str_of r) ∙ without_commas-digits (str_of r) (str_of-digits r))
    ∙ int_of-str_of r

whole_text : (r : ℕ) → whole_ok (grouped (str_of r)) ≡ true
whole_text r = grouped-whole_ok (str_of r) (str_of-digits r) (str_of-length r)

amount_of-rupees : (r : ℕ) → amount_of (grouped (str_of r)) ≡ ok (r * 100 + 0)
unfolding amount_of
amount_of-rupees r =
    let apart = split_point-none (grouped (str_of r)) (grouped-All _ r refl no_point) in
    rw (apart, whole_text r, bare_whole r) refl

pub two_digits : (n : ℕ) → n < 100 → (length (pad2 n) == 2) ≡ true
two_digits n h = rw (pad2-two n h) refl

amount_of-paise :
    (r ps : ℕ) → ps < 100 → amount_of (grouped (str_of r) ++ (46 ∷ pad2 ps)) ≡ ok (r * 100 + ps)
unfolding amount_of
amount_of-paise r ps small =
    let apart = split_point-some (grouped (str_of r)) (pad2 ps) (grouped-All _ r refl no_point) in
    rw
      (
        apart,
        whole_text r,
        two_digits ps small,
        every-digits (pad2 ps) (pad2-digits ps),
        bare_whole r,
        int_of-pad2 ps,
      )
      refl

amount_of-fmt_abs : (n : ℕ) → amount_of (fmt_abs n) ≡ ok n
amount_of-fmt_abs n = elim (fmt_abs-cases n) [
  | inl (z, e) ↦
      let amount : n / 100 * 100 + 0 ≡ n = omega (arith, z) in
      ap amount_of e ∙ (amount_of-rupees (n / 100) ∙ ap (λ k. ok k) amount)
  | inr e ↦
      let amount : n / 100 * 100 + n % 100 ≡ n = omega arith in
      ap amount_of e ∙ (amount_of-paise (n / 100) (n % 100) (omega arith) ∙ ap (λ k. ok k) amount)
]

before_amount : (s : Text) → All IsPrinted s → strip (without_rupees (without_equals (clean s))) ≡ s
before_amount s h =
    let q = printed-Quiet s h in
    rw (clean-Quiet s q, without_equals-Quiet s q, without_rupees-Quiet s q) (strip-Quiet s q)

digit-no_sign : (c : ℕ) → IsDigit c → is_minus c ≡ false
digit-no_sign c (low, high) = ground arith

abbrev Unsigned : Text → Type 0
Unsigned = All (λ c. is_minus c ≡ false)

fmt_abs-Unsigned : (n : ℕ) → Unsigned (fmt_abs n)
fmt_abs-Unsigned n =
    let whole = grouped-All (λ c. is_minus c ≡ false) (n / 100) refl digit-no_sign in
    elim (fmt_abs-cases n) [
      | inl (z, e) ↦ rw e whole
      | inr e ↦ rw e (
          All-append (λ c. is_minus c ≡ false) (grouped (str_of (n / 100))) (46 ∷ pad2 (n % 100))
            whole (refl, All-map digit-no_sign (pad2 (n % 100)) (pad2-digits (n % 100))))
    ]

without_signs-Unsigned : (s : Text) → Unsigned s → (without_signs s ≡ s) × (has_sign s ≡ false)
unfolding without_signs
without_signs-Unsigned [] h = (refl, refl)
without_signs-Unsigned (c ∷ s) h = (rw h.0 refl, h.0)

-- A text that is an amount is none of the texts that stand for nil.
not_nil_text :
    (t s : Text) (n : ℕ) (e : Fault) → amount_of t ≡ ok n → amount_of s ≡ err e → same t s ≡ false
not_nil_text t s n e reads fails = elim (Bool-cases (same t s)) [
  | inl k ↦ let both = ap amount_of (same→eq t s k) in cc
  | inr k ↦ k
]

nil_texts :
    (amount_of em_dash ≡ err value_error)
    × (amount_of [] ≡ err value_error)
    × (amount_of (45 ∷ []) ≡ err value_error)
unfolding amount_of
nil_texts = (refl, refl, refl)

paise-fmt_abs : (n : ℕ) → paise (fmt_abs n) ≡ ok (pos n)
unfolding paise
paise-fmt_abs n =
    let reads = amount_of-fmt_abs n in
    let (dash, empty, hyphen) = nil_texts in
    let (unsigned, positive) = without_signs-Unsigned (fmt_abs n) (fmt_abs-Unsigned n) in
    rw
      (
        before_amount (fmt_abs n) (fmt_abs-IsPrinted n),
        not_nil_text (fmt_abs n) em_dash n value_error reads dash,
        not_nil_text (fmt_abs n) [] n value_error reads empty,
        not_nil_text (fmt_abs n) (45 ∷ []) n value_error reads hyphen,
        unsigned,
        positive,
        reads,
      )
      refl

paise-minus : (n : ℕ) → paise (8722 ∷ fmt_abs n) ≡ ok (neg (pos n))
unfolding paise same without_signs
paise-minus n =
    let (unsigned, positive) = without_signs-Unsigned (fmt_abs n) (fmt_abs-Unsigned n) in
    rw
      (
        before_amount (8722 ∷ fmt_abs n) (inr refl, fmt_abs-IsPrinted n),
        unsigned,
        amount_of-fmt_abs n,
      )
      refl

pub fmt_with-pos : (d z : Bool) (n : ℕ) → fmt_with d z (pos (suc n)) ≡ fmt_abs (suc n)
unfolding fmt_with
fmt_with-pos d z n = rw (not_zero (suc n + 0) (omega arith)) refl

pub fmt_with-negsuc : (d z : Bool) (n : ℕ) → fmt_with d z (negsuc n) ≡ 8722 ∷ fmt_abs (suc n)
unfolding fmt_with
fmt_with-negsuc d z n = rw (not_zero (0 + suc n) (omega arith), above_zero n) refl

paise-nil : (d z : Bool) → paise (fmt_with d z (pos 0)) ≡ ok (pos 0)
unfolding fmt_with paise same starts_with
paise-nil true true = refl
paise-nil true false = refl
paise-nil false true = refl
paise-nil false false = refl

-- The checker's `paise` gives back every amount that the builder's `fmt` printed, with every choice of
-- its `dash` and `show_zero`.
pub paise-fmt_with : (d z : Bool) (x : ℤ) → paise (fmt_with d z x) ≡ ok x
paise-fmt_with d z (pos zero) = paise-nil d z
paise-fmt_with d z (pos (suc n)) = ap paise (fmt_with-pos d z n) ∙ paise-fmt_abs (suc n)
paise-fmt_with d z (negsuc n) =
    ap paise (fmt_with-negsuc d z n) ∙ (paise-minus (suc n) ∙ ap (λ y. ok y) (neg-suc n))
