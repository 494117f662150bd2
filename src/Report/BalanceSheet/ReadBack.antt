-- ===== src/Report/BalanceSheet/ReadBack.antt =====
-- `int_or` reads back what `fmt` prints.
use rukka_folio.Prelude.{
  ◌≡◌, refl, sym, ◌∙◌, ap, ◌⊎◌, ℕ, zero, suc, ◌+◌, ◌*◌, ◌/◌, ◌%◌, ◌<◌, ◌==◌, ltb, true, false,
  Bool-cases, inl, inr, [], ◌∷◌, ◌++◌, All, Text, str_of, pad2, length, arith, if◌then◌else◌, ℤ,
  pos, negsuc, neg,
}
use rukka_folio.Money.{grouped, fmt_abs, fmt_with, fmt_zero}
use rukka_folio.Fault.{ok}
use rukka_folio.Report.BalanceSheet.Partners.{int_of, without_stars, without_commas, at_dot, int_or}
use rukka_folio.Report.BalanceSheet.Digits.{
  IsDigit, All-append, All-map, str_of-digits, str_of-length, int_of-str_of, int_of-pad2,
  pad2-digits, pad2-length,
}
use rukka_folio.Report.BalanceSheet.Commas.{
  without_commas-append, digit-no_star, without_commas-digits, grouped-without_commas, no_star,
  without_stars-none, at_dot-digits, at_dot-split, int_or-plain, int_or-signed,
}

-- What `int_or` needs of a printed amount n without its sign.
record Reads (t : Text) (n : ℕ) : Type 0 where
  c : ℕ
  s : Text
  w : ℕ
  q : ℕ
  bare : without_commas t ≡ c ∷ s
  digit : IsDigit c
  whole : int_of (at_dot (c ∷ s)).0 ≡ ok w
  part : (if length (at_dot (c ∷ s)).1 == 0 then ok 0 else int_of (at_dot (c ∷ s)).1) ≡ ok q
  value : w * 100 + q ≡ n
  starless : without_stars t ≡ t

pub not_empty :
    (t : Text) → 0 < length t → All IsDigit t → (c : ℕ) × (s : Text) × (t ≡ c ∷ s) × IsDigit c
not_empty [] h d = absurd (omega arith)
not_empty (c ∷ s) h d = (c, s, refl, d.0)

starless_of :
    (t core : Text)
    → without_commas t ≡ core
    → All (λ c. (c == 42) ≡ false) core
    → without_stars t ≡ t
starless_of t core e h = without_stars-none t (no_star t (rw e h))

digits-no_star : (s : Text) → All IsDigit s → All (λ c. (c == 42) ≡ false) s
digits-no_star s h = All-map digit-no_star s h

rupees-Reads : (r n : ℕ) → r * 100 ≡ n → Reads (grouped (str_of r)) n
rupees-Reads r n amount =
    let digits = str_of-digits r in
    let (c, s, e, d) = not_empty (str_of r) (str_of-length r) digits in
    let bare = grouped-without_commas (str_of r) ∙ without_commas-digits (str_of r) digits in
    let cut = at_dot-digits (str_of r) digits in
    record {
      c = c;
      s = s;
      w = r;
      q = 0;
      bare = bare ∙ e;
      digit = d;
      whole = rw (← e, cut) (int_of-str_of r);
      part = rw (← e, cut) refl;
      value = omega (arith, amount);
      starless =
          starless_of (grouped (str_of r)) (str_of r) bare (digits-no_star (str_of r) digits);
    }

pub not_zero : (n : ℕ) → 0 < n → (n == 0) ≡ false
not_zero n h = ground arith

paise-Reads : (r ps n : ℕ) → r * 100 + ps ≡ n → Reads (grouped (str_of r) ++ (46 ∷ pad2 ps)) n
unfolding without_commas
paise-Reads r ps n amount =
    let digits = str_of-digits r in
    let (c, s, e, d) = not_empty (str_of r) (str_of-length r) digits in
    let t = grouped (str_of r) ++ (46 ∷ pad2 ps) in
    let bare : without_commas t ≡ str_of r ++ (46 ∷ pad2 ps) =
      without_commas-append (grouped (str_of r)) (46 ∷ pad2 ps)
      ∙ rw
          (
            grouped-without_commas (str_of r),
            without_commas-digits (str_of r) digits,
            without_commas-digits (pad2 ps) (pad2-digits ps),
          )
          refl in
    let split : c ∷ (s ++ (46 ∷ pad2 ps)) ≡ str_of r ++ (46 ∷ pad2 ps) =
      ap (λ u. u ++ (46 ∷ pad2 ps)) (sym e) in
    let cut = at_dot-split (str_of r) (pad2 ps) digits in
    record {
      c = c;
      s = s ++ (46 ∷ pad2 ps);
      w = r;
      q = ps;
      bare = bare ∙ sym split;
      digit = d;
      whole = rw (split, cut) (int_of-str_of r);
      part = rw (split, cut, not_zero (length (pad2 ps)) (pad2-length ps)) (int_of-pad2 ps);
      value = amount;
      starless = starless_of t (str_of r ++ (46 ∷ pad2 ps)) bare (
          All-append (λ c. (c == 42) ≡ false) (str_of r) (46 ∷ pad2 ps)
            (digits-no_star (str_of r) digits) (refl, digits-no_star (pad2 ps) (pad2-digits ps)));
    }

pub fmt_abs-cases :
    (p : ℕ)
    → ((p % 100 ≡ 0) × (fmt_abs p ≡ grouped (str_of (p / 100))))
      ⊎ (fmt_abs p ≡ grouped (str_of (p / 100)) ++ (46 ∷ pad2 (p % 100)))
unfolding fmt_abs
fmt_abs-cases p = elim (Bool-cases (p % 100 == 0)) [
  | inl e ↦ inl (ground (arith, e), rw e refl)
  | inr e ↦ inr (rw e refl)
]

fmt_abs-Reads : (p : ℕ) → Reads (fmt_abs p) p
fmt_abs-Reads p = elim (fmt_abs-cases p) [
  | inl (z, e) ↦ rw e (rupees-Reads (p / 100) p (omega (arith, z)))
  | inr e ↦ rw e (paise-Reads (p / 100) (p % 100) p (omega arith))
]

fmt_zero-pos : (n : ℕ) → fmt_zero (pos (suc n)) ≡ fmt_abs (suc n)
unfolding fmt_zero fmt_with fmt_abs
fmt_zero-pos n = rw (not_zero (suc n + 0) (omega arith)) refl

pub above_zero : (n : ℕ) → ltb 0 (suc n) ≡ true
above_zero n = ground arith

pub neg-suc : (n : ℕ) → neg (pos (suc n)) ≡ negsuc n
unfolding neg
neg-suc n = ground arith

fmt_zero-negsuc : (n : ℕ) → fmt_zero (negsuc n) ≡ 8722 ∷ fmt_abs (suc n)
unfolding fmt_zero fmt_with fmt_abs
fmt_zero-negsuc n = rw (not_zero (0 + suc n) (omega arith), above_zero n) refl

plain_amount : (t : Text) (n : ℕ) → Reads t n → int_or t ≡ ok (pos n)
plain_amount t n h =
    int_or-plain t h.c h.s h.w h.q h.digit h.whole h.part (ap without_commas h.starless ∙ h.bare)
    ∙ ap (λ k. ok (pos k)) h.value

without_stars-minus : (t : Text) → without_stars (8722 ∷ t) ≡ 8722 ∷ without_stars t
unfolding without_stars
without_stars-minus [] = refl
without_stars-minus (c ∷ t) = refl

signed_amount : (t : Text) (n : ℕ) → Reads t n → int_or (8722 ∷ t) ≡ ok (neg (pos n))
unfolding without_commas
signed_amount t n h =
    int_or-signed (8722 ∷ t) h.c h.s h.w h.q h.digit h.whole h.part
      (rw (without_stars-minus t, h.starless) (ap (λ u. 8722 ∷ u) h.bare))
    ∙ ap (λ k. ok (neg (pos k))) h.value

printed_zero : int_or (fmt_zero (pos 0)) ≡ ok (pos 0)
unfolding int_or fmt_zero
printed_zero = refl

-- `int_or` gives back the amount that `fmt` printed with `show_zero`, for every amount: the commas of
-- the Indian groups, the two digits of the paise and the minus sign are read as they were written.
pub int_or-fmt_zero : (x : ℤ) → int_or (fmt_zero x) ≡ ok x
int_or-fmt_zero (pos zero) = printed_zero
int_or-fmt_zero (pos (suc n)) =
    ap int_or (fmt_zero-pos n) ∙ plain_amount (fmt_abs (suc n)) (suc n) (fmt_abs-Reads (suc n))
int_or-fmt_zero (negsuc n) =
    ap int_or (fmt_zero-negsuc n)
    ∙ signed_amount (fmt_abs (suc n)) (suc n) (fmt_abs-Reads (suc n))
    ∙ ap ok (neg-suc n)
