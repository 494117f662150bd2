-- ===== src/Prelude/Int.antt =====
-- Signed integers over the native numbers: Python's `int`, and integer paise.
use Prim.Native.Nat.{ℕ, suc, ◌+◌, ◌-◌, ◌*◌, ◌≤◌}
use mathlib.Core.Path.{◌≡◌, ap}
use mathlib.Core.Bool.{Bool, false, true}
use mathlib.Core.List.{List, [], ◌∷◌, ◌++◌}
use native.Mathlib.Omega.{arith}
use rukka_folio.Prelude.Tests.{ltb, leb, ◌==◌, if◌then◌else◌}

-- `negsuc n` is -(n + 1).
pub data ℤ : Type 0 where
  pos : ℕ → ℤ
  negsuc : ℕ → ℤ

abbrev pub pos_part : ℤ → ℕ
pos_part (pos n) = n
pos_part (negsuc n) = 0

abbrev pub neg_part : ℤ → ℕ
neg_part (pos n) = 0
neg_part (negsuc n) = suc n

abbrev pub sub_ℕ : ℕ → ℕ → ℤ
sub_ℕ a b = if leb b a then pos (a - b) else negsuc (b - a - 1)

infixl 65 ◌+ℤ◌ ◌-ℤ◌
infixl 70 ◌*ℤ◌
infix 50 ◌≤ℤ◌
unfoldable pub ◌+ℤ◌ : ℤ → ℤ → ℤ
a +ℤ b = sub_ℕ (pos_part a + pos_part b) (neg_part a + neg_part b)

unfoldable pub ◌-ℤ◌ : ℤ → ℤ → ℤ
a -ℤ b = sub_ℕ (pos_part a + neg_part b) (neg_part a + pos_part b)

unfoldable pub ◌*ℤ◌ : ℤ → ℤ → ℤ
a *ℤ b =
    sub_ℕ (pos_part a * pos_part b + neg_part a * neg_part b)
      (pos_part a * neg_part b + neg_part a * pos_part b)

abbrev pub ◌≤ℤ◌ : ℤ → ℤ → Type 0
a ≤ℤ b = pos_part a + neg_part b ≤ pos_part b + neg_part a

abbrev pub ltb_ℤ : ℤ → ℤ → Bool
ltb_ℤ a b = ltb (pos_part a + neg_part b) (pos_part b + neg_part a)

abbrev pub leb_ℤ : ℤ → ℤ → Bool
leb_ℤ a b = leb (pos_part a + neg_part b) (pos_part b + neg_part a)

abbrev pub eqb_ℤ : ℤ → ℤ → Bool
eqb_ℤ a b = (pos_part a + neg_part b) == (pos_part b + neg_part a)

-- `a > 0`, `a < 0`, `a == 0`
abbrev pub is_pos : ℤ → Bool
is_pos a = ltb 0 (pos_part a)

abbrev pub is_neg : ℤ → Bool
is_neg a = ltb 0 (neg_part a)

abbrev pub is_nil : ℤ → Bool
is_nil a = (pos_part a + neg_part a) == 0

-- `-a`, by its sign.
unfoldable pub neg : ℤ → ℤ
neg a = sub_ℕ (neg_part a) (pos_part a)

abbrev pub abs : ℤ → ℤ
abs a = pos (pos_part a + neg_part a)

-- `x if b else 0`
abbrev pub when : Bool → ℤ → ℤ
when b x = if b then x else pos 0

-- `max(a, b)`
abbrev pub max_ℤ : ℤ → ℤ → ℤ
max_ℤ a b = if leb_ℤ b a then a else b

-- `a if a > 0 else 0` and `-a if a < 0 else 0`
abbrev pub dr_of : ℤ → ℤ
dr_of a = pos (pos_part a)

abbrev pub cr_of : ℤ → ℤ
cr_of a = pos (neg_part a)

pub +ℤ_parts :
    (a b : ℤ)
    → pos_part (a +ℤ b) + neg_part a + neg_part b ≡ neg_part (a +ℤ b) + pos_part a + pos_part b
unfolding ◌+ℤ◌
+ℤ_parts a b = ground arith

pub -ℤ_parts :
    (a b : ℤ)
    → pos_part (a -ℤ b) + neg_part a + pos_part b ≡ neg_part (a -ℤ b) + pos_part a + neg_part b
unfolding ◌-ℤ◌
-ℤ_parts a b = ground arith

pub neg_parts : (a : ℤ) → pos_part (neg a) + pos_part a ≡ neg_part (neg a) + neg_part a
unfolding neg
neg_parts a = ground arith

pub eq_of_parts : (a b : ℤ) → pos_part a + neg_part b ≡ pos_part b + neg_part a → a ≡ b
eq_of_parts a b h = ground arith

pub parts_of_eq : (a b : ℤ) → a ≡ b → (pos_part a ≡ pos_part b) × (neg_part a ≡ neg_part b)
parts_of_eq a b e = (ap pos_part e, ap neg_part e)

pub ruleset int_laws = (arith, +ℤ_parts, -ℤ_parts, neg_parts, eq_of_parts, parts_of_eq)

-- The test `a == b` on integers, read both ways.
pub eq→eqb : (a b : ℤ) → a ≡ b → eqb_ℤ a b ≡ true
eq→eqb a b e = ground arith

pub ne→eqb : (a b : ℤ) → (a ≡ b → ⊥) → eqb_ℤ a b ≡ false
ne→eqb a b e = ground arith

pub eqb→eq : (a b : ℤ) → eqb_ℤ a b ≡ true → a ≡ b
eqb→eq a b h = ground arith

pub nil→eq : (a : ℤ) → is_nil a ≡ true → a ≡ pos 0
nil→eq a h = ground arith

pub not_nil→ne : (a : ℤ) → is_nil a ≡ false → a ≡ pos 0 → ⊥
not_nil→ne a h e = ground arith

-- One of the two parts is nil.
pub one_part : (a : ℤ) → pos_part a * neg_part a ≡ 0
one_part (pos n) = omega arith
one_part (negsuc n) = omega arith

-- `sum(f(x) for x in xs)`
abbrev pub sum_by {ℓ} : {A : Type ℓ} → (A → ℤ) → List A → ℤ
sum_by f [] = pos 0
sum_by f (x ∷ xs) = f x +ℤ sum_by f xs

abbrev pub sum : List ℤ → ℤ
sum = sum_by (λ a. a)

pub sum_by-append {ℓ} :
    {A : Type ℓ} (f : A → ℤ) (xs ys : List A) → sum_by f (xs ++ ys) ≡ sum_by f xs +ℤ sum_by f ys
sum_by-append f [] ys = omega int_laws
sum_by-append f (x ∷ xs) ys = omega (int_laws, sum_by-append f xs ys)

pub +ℤ-zero : (a : ℤ) → a +ℤ pos 0 ≡ a
+ℤ-zero a = omega int_laws

pub zero-+ℤ : (a : ℤ) → pos 0 +ℤ a ≡ a
zero-+ℤ a = omega int_laws

pub +ℤ_assoc : (a b c : ℤ) → a +ℤ b +ℤ c ≡ a +ℤ (b +ℤ c)
+ℤ_assoc a b c = omega int_laws
