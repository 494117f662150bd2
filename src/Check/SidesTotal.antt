-- ===== src/Check/SidesTotal.antt =====
-- The two sides of an entry: neither is empty, and each adds up to the amount.
use rukka_folio.Prelude.{
  ◌≡◌, ◌≢◌, refl, ℕ, zero, suc, ◌+◌, ◌-◌, ◌<◌, true, false, List, [], ◌∷◌, keep, map, ℤ, pos,
  negsuc, pos_part, neg_part, neg, ◌-ℤ◌, int_laws, is_pos, is_neg, dr_of, cr_of, sum_by, All, arith,
  Bool-cases, inl, inr,
}
use rukka_folio.Book.{Line}
use rukka_folio.Check.NamesRead.{IsName}
use rukka_folio.Check.SidesRead.{IsShown}

pos_above : (a : ℤ) → is_pos a ≡ true → (k : ℕ) × (a ≡ pos (suc k))
pos_above (pos zero) h = cc
pos_above (pos (suc k)) h = (k, refl)
pos_above (negsuc k) h = cc

neg_above : (a : ℤ) → is_neg a ≡ true → (k : ℕ) × (neg a ≡ pos (suc k))
unfolding neg
neg_above (pos k) h = cc
neg_above (negsuc k) h = (k, ground arith)

abbrev pub Named : List Line → Type 0
Named = All (λ l. IsName l.0)

pub dr-IsShown : (ls : List Line) → Named ls → All IsShown (keep (λ l. is_pos l.1) ls)
dr-IsShown [] h = tt
dr-IsShown (l ∷ ls) h = elim (Bool-cases (is_pos l.1)) [
  | inl e ↦
      let (k, p) = pos_above l.1 e in
      rw e (record { name = h.0; above = k; amount = p }, dr-IsShown ls h.1)
  | inr e ↦ rw e (dr-IsShown ls h.1)
]

abbrev pub turn : Line → Line
turn l = (l.0, neg l.1)

pub cr-IsShown : (ls : List Line) → Named ls → All IsShown (map turn (keep (λ l. is_neg l.1) ls))
cr-IsShown [] h = tt
cr-IsShown (l ∷ ls) h = elim (Bool-cases (is_neg l.1)) [
  | inl e ↦
      let (k, p) = neg_above l.1 e in
      rw e (record { name = h.0; above = k; amount = p }, cr-IsShown ls h.1)
  | inr e ↦ rw e (cr-IsShown ls h.1)
]

not_dr : (a : ℤ) → is_pos a ≡ false → dr_of a ≡ pos 0
not_dr a h = ground arith

is_dr : (a : ℤ) → is_pos a ≡ true → dr_of a ≡ a
is_dr a h = ground arith

not_cr : (a : ℤ) → is_neg a ≡ false → cr_of a ≡ pos 0
not_cr a h = ground arith

is_cr : (a : ℤ) → is_neg a ≡ true → cr_of a ≡ neg a
unfolding neg
is_cr a h = ground arith

pub dr_sum :
    (ls : List Line) → sum_by (λ l. l.1) (keep (λ l. is_pos l.1) ls) ≡ sum_by (λ l. dr_of l.1) ls
dr_sum [] = refl
dr_sum (l ∷ ls) = elim (Bool-cases (is_pos l.1)) [
  | inl e ↦ rw (e, dr_sum ls, is_dr l.1 e) refl
  | inr e ↦ rw (e, dr_sum ls, not_dr l.1 e) (omega int_laws)
]

pub cr_sum :
    (ls : List Line)
    → sum_by (λ l. l.1) (map turn (keep (λ l. is_neg l.1) ls)) ≡ sum_by (λ l. cr_of l.1) ls
cr_sum [] = refl
cr_sum (l ∷ ls) = elim (Bool-cases (is_neg l.1)) [
  | inl e ↦ rw (e, cr_sum ls, is_cr l.1 e) refl
  | inr e ↦ rw (e, cr_sum ls, not_cr l.1 e) (omega int_laws)
]

sides_sum :
    (ls : List Line)
    → sum_by (λ l. l.1) ls ≡ sum_by (λ l. dr_of l.1) ls -ℤ sum_by (λ l. cr_of l.1) ls
sides_sum [] = omega int_laws
sides_sum (l ∷ ls) = rw (sides_sum ls) (omega int_laws)

at_least : (ls : List Line) → (k : ℕ) × (sum_by (λ l. dr_of l.1) ls ≡ pos k)
at_least [] = (0, refl)
at_least (l ∷ ls) = let (k, e) = at_least ls in (pos_part l.1 + k, rw e (omega int_laws))

at_least_cr : (ls : List Line) → (k : ℕ) × (sum_by (λ l. cr_of l.1) ls ≡ pos k)
at_least_cr [] = (0, refl)
at_least_cr (l ∷ ls) = let (k, e) = at_least_cr ls in (neg_part l.1 + k, rw e (omega int_laws))

some_part : (a : ℤ) → a ≢ pos 0 → 0 < pos_part a + neg_part a
some_part (pos zero) h = absurd (h refl)
some_part (pos (suc k)) h = omega arith
some_part (negsuc k) h = omega arith

-- An entry that has a line that is not nil, and adds up to nothing, has an amount above nil.
pub above_nil :
    (l : Line) (ls : List Line)
    → l.1 ≢ pos 0
    → sum_by (λ x. x.1) (l ∷ ls) ≡ pos 0
    → (k : ℕ) × (sum_by (λ x. dr_of x.1) (l ∷ ls) ≡ pos (suc k))
above_nil l ls nil total =
    let (k, e) = at_least ls in
    let (j, f) = at_least_cr ls in
    let level : pos_part l.1 + k ≡ neg_part l.1 + j =
      omega (int_laws, sides_sum (l ∷ ls), total, e, f) in
    let above : 0 < pos_part l.1 + k = omega (arith, level, some_part l.1 nil) in
    (pos_part l.1 + k - 1, omega (int_laws, e, above))

-- The credits of an entry that adds up to nothing have the same total.
pub sides_level :
    (ls : List Line)
    → sum_by (λ x. x.1) ls ≡ pos 0
    → sum_by (λ x. cr_of x.1) ls ≡ sum_by (λ x. dr_of x.1) ls
sides_level ls total = omega (int_laws, sides_sum ls, total)
