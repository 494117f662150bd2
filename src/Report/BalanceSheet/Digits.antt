-- ===== src/Report/BalanceSheet/Digits.antt =====
-- Numbers in decimal, written by `str_of` and read by `int_of`.
use rukka_folio.Prelude.{
  ◌≡◌, refl, sym, ◌⊎◌, ◌∙◌, ap, ℕ, zero, suc, ◌+◌, ◌*◌, ◌/◌, ◌%◌, ◌<◌, ◌≤◌, ltb, Bool, ◌&&◌, ◌-◌,
  true, false, Bool-cases, inl, inr, [], ◌∷◌, ◌++◌, All, Text, str_of, digits_on, pad2, arith,
  if◌then◌else◌, length,
}
use rukka_folio.Prelude.{ltb→lt}
use rukka_folio.Fault.{ok}
use rukka_folio.Report.BalanceSheet.Partners.{digits_of, int_of}

abbrev pub IsDigit : ℕ → Type 0
IsDigit c = (48 ≤ c) × (c < 58)

pub All-append : (P : ℕ → Type 0) (s t : Text) → All P s → All P t → All P (s ++ t)
All-append P [] t h g = g
All-append P (c ∷ s) t h g = (h.0, All-append P s t h.1 g)

pub All-map : {P Q : ℕ → Type 0} (f : (c : ℕ) → P c → Q c) (s : Text) → All P s → All Q s
All-map f [] h = tt
All-map f (c ∷ s) h = (f c h.0, All-map f s h.1)

digits_of-snoc :
    (k m d : ℕ) (s : Text)
    → d < 10
    → digits_of k s ≡ ok m
    → digits_of k (s ++ ((48 + d) ∷ [])) ≡ ok (m * 10 + d)
unfolding digits_of
digits_of-snoc k m d [] h e = ground (arith, e)
digits_of-snoc k m d (c ∷ s) h e = elim (Bool-cases (ltb 47 c && ltb c 58)) [
  | inl b ↦ rw b (digits_of-snoc (k * 10 + (c - 48)) m d s h (rw b at e))
  | inr b ↦ let refused = rw b at e in cc
]

ltb→ge : (a b : ℕ) → ltb a b ≡ false → b ≤ a
ltb→ge a b h = ground arith

one_digit : (n : ℕ) → n < 10 → digits_of 0 ((48 + n) ∷ []) ≡ ok n
unfolding digits_of
one_digit n h = ground arith

digits_on-digits : (fuel n : ℕ) → All IsDigit (digits_on fuel n)
unfolding digits_on
digits_on-digits zero n = tt
digits_on-digits (suc fuel) n = elim (Bool-cases (ltb n 10)) [
  | inl e ↦ rw e ((omega arith, let small = ltb→lt n 10 e in omega arith), tt)
  | inr e ↦ rw e (
      All-append IsDigit (digits_on fuel (n / 10)) _ (digits_on-digits fuel (n / 10))
        ((omega arith, omega arith), tt))
]

pub digits_of-digits_on : (fuel n : ℕ) → n < fuel → digits_of 0 (digits_on fuel n) ≡ ok n
unfolding digits_on digits_of
digits_of-digits_on zero n h = absurd (omega arith)
digits_of-digits_on (suc fuel) n h = elim (Bool-cases (ltb n 10)) [
  | inl e ↦ rw e (one_digit n (ltb→lt n 10 e))
  | inr e ↦
      let large = ltb→ge n 10 e in
      rw e (
        digits_of-snoc 0 (n / 10) (n % 10) (digits_on fuel (n / 10)) (omega arith)
          (digits_of-digits_on fuel (n / 10) (omega arith))
        ∙ ap (λ m. ok m) (omega arith))
]

pub str_of-digits : (n : ℕ) → All IsDigit (str_of n)
unfolding str_of
str_of-digits n = digits_on-digits (suc n) n

snoc_length : (s : Text) (c : ℕ) → 0 < length (s ++ (c ∷ []))
snoc_length [] c = omega arith
snoc_length (d ∷ s) c = omega arith

pub str_of-length : (n : ℕ) → 0 < length (str_of n)
unfolding str_of digits_on
str_of-length n = elim (Bool-cases (ltb n 10)) [
  | inl e ↦ rw e (omega arith)
  | inr e ↦ rw e (snoc_length (digits_on n (n / 10)) (48 + n % 10))
]

int_of-digits_of : (s : Text) → 0 < length s → int_of s ≡ digits_of 0 s
unfolding int_of
int_of-digits_of [] h = absurd (omega arith)
int_of-digits_of (c ∷ s) h = refl

-- `int(str(n))` is n.
pub int_of-str_of : (n : ℕ) → int_of (str_of n) ≡ ok n
unfolding str_of
int_of-str_of n =
    int_of-digits_of (str_of n) (str_of-length n) ∙ digits_of-digits_on (suc n) n (omega arith)

digits_of-zero : (s : Text) → digits_of 0 (48 ∷ s) ≡ digits_of 0 s
unfolding digits_of
digits_of-zero s = refl

if-cases : (b : Bool) (s t : Text) → ((if b then s else t) ≡ s) ⊎ ((if b then s else t) ≡ t)
if-cases true s t = inl refl
if-cases false s t = inr refl

pad2-cases : (n : ℕ) → (pad2 n ≡ 48 ∷ str_of n) ⊎ (pad2 n ≡ str_of n)
unfolding pad2
pad2-cases n = if-cases (ltb n 10) (48 ∷ str_of n) (str_of n)

int_of-zero : (s : Text) → 0 < length s → int_of (48 ∷ s) ≡ int_of s
unfolding int_of
int_of-zero s h = digits_of-zero s ∙ sym (int_of-digits_of s h)

-- The two digits of the paise.
pub int_of-pad2 : (n : ℕ) → int_of (pad2 n) ≡ ok n
int_of-pad2 n = elim (pad2-cases n) [
  | inl e ↦ rw e (int_of-zero (str_of n) (str_of-length n) ∙ int_of-str_of n)
  | inr e ↦ rw e (int_of-str_of n)
]

pub pad2-digits : (n : ℕ) → All IsDigit (pad2 n)
pad2-digits n = elim (pad2-cases n) [
  | inl e ↦ rw e ((omega arith, omega arith), str_of-digits n)
  | inr e ↦ rw e (str_of-digits n)
]

pub pad2-length : (n : ℕ) → 0 < length (pad2 n)
pad2-length n = elim (pad2-cases n) [ inl e ↦ rw e (omega arith) | inr e ↦ rw e (str_of-length n) ]

lt→ltb : (a b : ℕ) → a < b → ltb a b ≡ true
lt→ltb a b h = ground arith

ge→ltb : (a b : ℕ) → b ≤ a → ltb a b ≡ false
ge→ltb a b h = ground arith

one_digit_length : (fuel n : ℕ) → n < 10 → length (digits_on (suc fuel) n) ≡ 1
unfolding digits_on
one_digit_length fuel n h = rw (lt→ltb n 10 h) refl

snoc_count : (s : Text) (c : ℕ) → length (s ++ (c ∷ [])) ≡ length s + 1
snoc_count [] c = omega arith
snoc_count (d ∷ s) c = omega (arith, snoc_count s c)

two_digits_length : (fuel n : ℕ) → 10 ≤ n → n < 100 → length (digits_on (suc (suc fuel)) n) ≡ 2
unfolding digits_on
two_digits_length fuel n least most = rw (ge→ltb n 10 least) (
    snoc_count (digits_on (suc fuel) (n / 10)) (48 + n % 10)
    ∙ ap (λ k. k + 1) (one_digit_length fuel (n / 10) (omega arith)))

str_of-two : (n : ℕ) → 10 ≤ n → n < 100 → length (str_of n) ≡ 2
unfolding str_of
str_of-two zero least most = absurd (omega arith)
str_of-two (suc n) least most = two_digits_length n (suc n) least most

str_of-one : (n : ℕ) → n < 10 → length (str_of n) ≡ 1
unfolding str_of
str_of-one n h = one_digit_length n n h

pad2-if : (n : ℕ) → pad2 n ≡ (if ltb n 10 then 48 ∷ str_of n else str_of n)
unfolding pad2
pad2-if n = refl

-- The paise are printed with two digits.
pub pad2-two : (n : ℕ) → n < 100 → length (pad2 n) ≡ 2
pad2-two n h = elim (Bool-cases (ltb n 10)) [
  | inl e ↦ rw (pad2-if n, e) (ap (λ k. suc k) (str_of-one n (ltb→lt n 10 e)))
  | inr e ↦ rw (pad2-if n, e) (str_of-two n (ltb→ge n 10 e) h)
]
