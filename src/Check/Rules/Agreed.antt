-- ===== src/Check/Rules/Agreed.antt =====
-- What the checker asks of a name, and what the book knows of its account, agree.
use rukka_folio.Prelude.{
  ◌≡◌, ◌≢◌, refl, ap, suc, ◌+◌, Bool, true, false, not, ◌||◌, List, [], ◌∷◌, ◌++◌, length, every,
  some_of, keep, map, ℤ, pos, neg, is_pos, is_neg, sum_by, Text, same, mem, All, arith, Bool-cases,
  inl, inr,
}
use rukka_folio.Kinds.{
  Kind, is_kind, in_kinds, is_money_kind, fund, income, expense, fixed, advance, loan,
}
use rukka_folio.Fault.{Result, ok}
use rukka_folio.Book.{Account, Line, has_account, find_account}
use rukka_folio.Entry.{kind_passes, money_line}
use rukka_folio.Check.Book.{Head, head_of}
use rukka_folio.Check.Book.Refined.{head_from}
use rukka_folio.Check.SidesTotal.{turn}
use rukka_folio.Check.Rules.{
  money_words, mixed_words, income_words, fund_words, charged_words, type_in, in_money, all_lines,
  pick_lines,
}

-- The chart's word of an account says what its kind says, as far as the rules ask.
pub record IsTyped (a : Account) : Type 0 where
  pub money : mem a.group money_words ≡ is_money_kind a.kind
  pub mixed : mem a.group mixed_words ≡ in_kinds (advance ∷ loan ∷ []) a.kind
  pub income_word : mem a.group income_words ≡ is_kind income a.kind
  pub fund_word : mem a.group fund_words ≡ is_kind fund a.kind
  pub charged : mem a.group charged_words ≡ in_kinds (fund ∷ expense ∷ fixed ∷ []) a.kind

module _ (p : Kind → Bool) (a : Account) (rest : List Account) (n : Text) where
  passes_here : same a.name n ≡ true → kind_passes (a ∷ rest) p n ≡ p a.kind
  unfolding kind_passes find_account
  passes_here e = rw (kind_passes, e) refl

  passes_there : same a.name n ≡ false → kind_passes (a ∷ rest) p n ≡ kind_passes rest p n
  unfolding kind_passes find_account
  passes_there e = rw (kind_passes, e) refl

pub in_money-money_line :
    (accounts : List Account)
    → All IsTyped accounts
    → (l : Line) → in_money (map head_from accounts) l ≡ money_line accounts l
unfolding in_money head_of money_line find_account
in_money-money_line [] h l = refl
in_money-money_line (a ∷ rest) h l = elim (Bool-cases (same a.name l.0)) [
  | inl e ↦ rw (e, passes_here is_money_kind a rest l.0 e) (h.0.money)
  | inr e ↦ rw (e, passes_there is_money_kind a rest l.0 e) (in_money-money_line rest h.1 l)
]

pub type_in-kind_passes :
    (words : List Text) (p : Kind → Bool) (accounts : List Account) (n : Text)
    → All (λ a. mem a.group words ≡ p a.kind) accounts
    → has_account n accounts ≡ true
    → type_in (map head_from accounts) words n ≡ ok (kind_passes accounts p n)
unfolding type_in head_of has_account
type_in-kind_passes words p [] n h k = cc
type_in-kind_passes words p (a ∷ rest) n h k = elim (Bool-cases (same a.name n)) [
  | inl e ↦ rw (e, h.0, passes_here p a rest n e) refl
  | inr e ↦ rw (e, passes_there p a rest n e) (type_in-kind_passes words p rest n h.1 (rw e at k))
]

module _ (heads : List Head) (p : Line → Result Bool) (q : Line → Bool) where
  pub all_lines-every :
      (ls : List Line) → All (λ l. p l ≡ ok (q l)) ls → all_lines heads p ls ≡ ok (every q ls)
  unfolding all_lines
  all_lines-every [] h = refl
  all_lines-every (l ∷ ls) h = elim (Bool-cases (q l)) [
    | inl e ↦ rw (h.0, e) (all_lines-every ls h.1)
    | inr e ↦ rw (h.0, e) refl
  ]

  pub pick_lines-keep :
      (ls : List Line) → All (λ l. p l ≡ ok (q l)) ls → pick_lines heads p ls ≡ ok (keep q ls)
  unfolding pick_lines
  pick_lines-keep [] h = refl
  pick_lines-keep (l ∷ ls) h = rw (h.0, pick_lines-keep ls h.1) refl

-- Tests of the name alone do not see the sign of a line.
module _ (q : Text → Bool) where
  pub every-turn : (ls : List Line) → every (λ l. q l.0) (map turn ls) ≡ every (λ l. q l.0) ls
  every-turn [] = refl
  every-turn (l ∷ ls) = rw (every-turn ls) refl

  pub some_of-turn : (ls : List Line) → some_of (λ l. q l.0) (map turn ls) ≡ some_of (λ l. q l.0) ls
  some_of-turn [] = refl
  some_of-turn (l ∷ ls) = rw (some_of-turn ls) refl

  pub keep-turn :
      (ls : List Line) → keep (λ l. q l.0) (map turn ls) ≡ map turn (keep (λ l. q l.0) ls)
  keep-turn [] = refl
  keep-turn (l ∷ ls) = elim (Bool-cases (q l.0)) [
    | inl e ↦ rw (e, keep-turn ls) refl
    | inr e ↦ rw (e, keep-turn ls) refl
  ]

pub length-turn : (ls : List Line) → length (map turn ls) ≡ length ls
length-turn [] = refl
length-turn (l ∷ ls) = ap suc (length-turn ls)

pub sum-turn : (ls : List Line) → sum_by (λ l. l.1) (map turn ls) ≡ sum_by (λ l. neg l.1) ls
sum-turn [] = refl
sum-turn (l ∷ ls) = rw (sum-turn ls) refl

pub some_of-append :
    (q : Line → Bool) (xs ys : List Line) → some_of q (xs ++ ys) ≡ (some_of q xs || some_of q ys)
some_of-append q [] ys = refl
some_of-append q (x ∷ xs) ys = ground (arith, some_of-append q xs ys)

pub every-not : (q : Line → Bool) (xs : List Line) → every (λ l. not (q l)) xs ≡ not (some_of q xs)
every-not q [] = refl
every-not q (x ∷ xs) = ground (arith, every-not q xs)

neg_of : (a : ℤ) → a ≢ pos 0 → is_pos a ≡ false → is_neg a ≡ true
neg_of a h e = ground arith

pos_of : (a : ℤ) → is_pos a ≡ true → is_neg a ≡ false
pos_of a e = ground arith

or_swap : (a b c : Bool) → (b || (a || c)) ≡ (a || (b || c))
or_swap a b c = ground arith

or_assoc : (a b c : Bool) → (a || (b || c)) ≡ (a || b || c)
or_assoc a b c = ground arith

abbrev pub debits : List Line → List Line
debits = keep (λ l. is_pos l.1)

abbrev pub credits : List Line → List Line
credits = keep (λ l. is_neg l.1)

-- Every line is on one of the two sides.
pub some_of-sides :
    (q : Line → Bool) (ls : List Line)
    → All (λ l. l.1 ≢ pos 0) ls
    → some_of q ls ≡ (some_of q (debits ls) || some_of q (credits ls))
some_of-sides q [] h = refl
some_of-sides q (l ∷ ls) h = elim (Bool-cases (is_pos l.1)) [
  | inl e ↦ rw (e, pos_of l.1 e, some_of-sides q ls h.1) (or_assoc (q l) _ _)
  | inr e ↦
      rw (e, neg_of l.1 h.0 e, some_of-sides q ls h.1) (or_swap (some_of q (debits ls)) (q l) _)
]

pub length-sides :
    (ls : List Line)
    → All (λ l. l.1 ≢ pos 0) ls
    → length (debits ls) + length (credits ls) ≡ length ls
length-sides [] h = omega arith
length-sides (l ∷ ls) h = elim (Bool-cases (is_pos l.1)) [
  | inl e ↦ rw (e, pos_of l.1 e) (omega (arith, length-sides ls h.1))
  | inr e ↦ rw (e, neg_of l.1 h.0 e) (omega (arith, length-sides ls h.1))
]
