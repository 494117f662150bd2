-- ===== src/Check/Plain.antt =====
-- What `clean` and the other steps of `paise` leave alone: a text of the characters that an amount is
-- printed with.
use rukka_folio.Prelude.{
  ◌≡◌, ◌⊎◌, not, refl, ◌∙◌, ap, ℕ, zero, suc, ◌<◌, ◌≤◌, ◌==◌, Bool, true, false, ◌||◌, Bool-cases,
  inl, inr, [], ◌∷◌, All, Text, txt, length, arith, starts_with,
}
use rukka_folio.Report.BalanceSheet.Partners.{without_commas}
use rukka_folio.Report.BalanceSheet.Commas.{without_stars-none}
use rukka_folio.Check.Cells.{
  is_space, lstrip, before_space, rstrip, strip, without_tagged, clean, without_equals,
  without_rupees,
}

-- A digit, a comma, a point, or the minus sign.
abbrev pub IsPrinted : ℕ → Type 0
IsPrinted c = ((44 ≤ c) × (c < 58)) ⊎ (c ≡ 8722)

-- The characters that the steps look for are not among them.
abbrev pub quiet : ℕ → Bool
quiet c = not (is_space c || (c == 60) || (c == 61) || (c == 42) || (c == 8377))

pub printed-quiet : (c : ℕ) → IsPrinted c → quiet c ≡ true
printed-quiet c (inl (low, high)) = ground arith
printed-quiet c (inr e) = rw e refl

abbrev pub Quiet : Text → Type 0
Quiet = All (λ c. quiet c ≡ true)

pub printed-Quiet : (s : Text) → All IsPrinted s → Quiet s
printed-Quiet [] h = tt
printed-Quiet (c ∷ s) h = (printed-quiet c h.0, printed-Quiet s h.1)

-- The tests of a character, one after another.
record Tests (c : ℕ) : Type 0 where
  space : is_space c ≡ false
  tag : (c == 60) ≡ false
  equals : (c == 61) ≡ false
  star : (c == 42) ≡ false
  rupee : (c == 8377) ≡ false

none_of_five :
    (p q r s t : Bool)
    → not (p || q || r || s || t) ≡ true
    → (p ≡ false) × (q ≡ false) × (r ≡ false) × (s ≡ false) × (t ≡ false)
none_of_five p q r s t h = ground arith

Tests-of : (c : ℕ) → quiet c ≡ true → Tests c
Tests-of c h =
    let (p, q, r, s, t) = none_of_five (is_space c) (c == 60) (c == 61) (c == 42) (c == 8377) h in
    record { space = p; tag = q; equals = r; star = s; rupee = t }

lstrip-Quiet : (s : Text) → Quiet s → lstrip s ≡ s
unfolding lstrip
lstrip-Quiet [] h = refl
lstrip-Quiet (c ∷ s) h = rw ((Tests-of c h.0).space) refl

pub before_space-quiet : (c : ℕ) (s : Text) → is_space c ≡ false → before_space c s ≡ c ∷ s
before_space-quiet c [] h = rw h refl
before_space-quiet c (d ∷ s) h = refl

pub rstrip-Quiet : (s : Text) → Quiet s → rstrip s ≡ s
unfolding rstrip
rstrip-Quiet [] h = refl
rstrip-Quiet (c ∷ s) h = rw (rstrip-Quiet s h.1) (before_space-quiet c s ((Tests-of c h.0).space))

pub strip-Quiet : (s : Text) → Quiet s → strip s ≡ s
unfolding strip
strip-Quiet s h = ap rstrip (lstrip-Quiet s h) ∙ rstrip-Quiet s h

without_tagged-Quiet :
    (fuel : ℕ) (start stop s : Text) → Quiet s → without_tagged fuel (60 ∷ start) stop s ≡ s
unfolding without_tagged starts_with
without_tagged-Quiet zero start stop s h = refl
without_tagged-Quiet (suc fuel) start stop [] h = refl
without_tagged-Quiet (suc fuel) start stop (c ∷ s) h =
    rw ((Tests-of c h.0).tag, without_tagged-Quiet fuel start stop s h.1) refl

no_stars : (s : Text) → Quiet s → All (λ c. (c == 42) ≡ false) s
no_stars [] h = tt
no_stars (c ∷ s) h = ((Tests-of c h.0).star, no_stars s h.1)

pub clean-Quiet : (s : Text) → Quiet s → clean s ≡ s
unfolding clean txt
clean-Quiet s h =
    rw
      (
        without_tagged-Quiet (length s) (txt "br><em>") (txt "</em>") s h,
        without_tagged-Quiet (length s) (txt "em>") (txt "</em>") s h,
        without_stars-none s (no_stars s h),
      )
      (strip-Quiet s h)

pub without_equals-Quiet : (s : Text) → Quiet s → without_equals s ≡ s
without_equals-Quiet [] h = refl
without_equals-Quiet (c ∷ s) h = rw ((Tests-of c h.0).equals) refl

pub without_rupees-Quiet : (s : Text) → Quiet s → without_rupees s ≡ s
unfolding without_rupees
without_rupees-Quiet [] h = refl
without_rupees-Quiet (c ∷ s) h = rw ((Tests-of c h.0).rupee, without_rupees-Quiet s h.1) refl

-- `without_commas` only drops commas.
pub All-commas : (P : ℕ → Type 0) (s : Text) → P 44 → All P (without_commas s) → All P s
unfolding without_commas
All-commas P [] z h = tt
All-commas P (c ∷ s) z h = elim (Bool-cases (c == 44)) [
  | inl e ↦
      let is_comma : c ≡ 44 = ground (arith, e) in (rw is_comma z, All-commas P s z (rw e at h))
  | inr e ↦ let kept = rw e at h in (kept.0, All-commas P s z kept.1)
]
