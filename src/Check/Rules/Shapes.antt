-- ===== src/Check/Rules/Shapes.antt =====
-- A transfer, and a payment from a fund, that the builder accepts, and the checker's rule for each.
use rukka_folio.Prelude.{
  ◌≡◌, refl, ◌∙◌, ℕ, suc, ◌+◌, ◌<◌, Bool, true, false, not, ◌&&◌, ◌||◌, ◌==◌, List, [], ◌∷◌, ◌++◌,
  length, every, some_of, keep, map, pos, neg, eqb_ℤ, sum_by, int_laws, All, arith, Bool-cases, inl,
  inr, and-left, and-right,
}
use rukka_folio.Kinds.{in_kinds, is_money_kind, fund, income, expense, fixed, invest}
use rukka_folio.Fault.{ok, guard->>-eq-ok, guard-eq-ok}
use rukka_folio.Book.{Account, Line, Voucher}
use rukka_folio.Entry.{kind_passes, money_line, line_of_kind, check_contra, check_fund}
use rukka_folio.Entry.Known.{IsEntry}
use rukka_folio.Check.Book.{Head}
use rukka_folio.Check.Book.Refined.{not_nil}
use rukka_folio.Check.SidesTotal.{turn, dr_sum, cr_sum, sides_level}
use rukka_folio.Check.EntryRead.{amount_above}
use rukka_folio.Check.Rules.{in_money, first_amount}
use rukka_folio.Check.Rules.Agreed.{
  IsTyped, some_of-turn, length-turn, some_of-append, some_of-sides, length-sides, debits, credits,
}
use rukka_folio.Check.Rules.Passes.{heads, in_money-same}

some_line : (xs : List Line) (k : ℕ) → sum_by (λ l. l.1) xs ≡ pos (suc k) → 0 < length xs
some_line [] k h = cc
some_line (x ∷ xs) k h = omega arith

one_each : (a b : ℕ) → 0 < a → 0 < b → a + b ≡ 2 → ((a == 1) ≡ true) × ((b == 1) ≡ true)
one_each a b h k e =
    let p : a ≡ 1 = omega (arith, e) in let q : b ≡ 1 = omega (arith, e) in (rw p refl, rw q refl)

same_number : (a b : ℕ) → (a == b) ≡ true → a ≡ b
same_number a b h = ground arith

pub one-first :
    (hs : List Head) (xs : List Line)
    → (length xs == 1) ≡ true
    → first_amount hs xs ≡ sum_by (λ l. l.1) xs
one-first hs [] h = cc
one-first hs (x ∷ []) h = omega int_laws
one-first hs (x ∷ y ∷ xs) h = absurd (two (length xs) h)
  where
    two : (n : ℕ) → (suc (suc n) == 1) ≡ true → ⊥
    two n h = ground arith

pub every-others :
    (p q : Line → Bool) (xs : List Line)
    → every (λ l. p l || q l) xs ≡ true
    → every p (keep (λ l. not (q l)) xs) ≡ true
every-others p q [] h = refl
every-others p q (x ∷ xs) h = elim (Bool-cases (q x)) [
  | inl e ↦ rw e (every-others p q xs (and-right (p x || q x) _ h))
  | inr e ↦ rw e (
      pair (p x) (every p (keep (λ l. not (q l)) xs))
        (only (p x) (q x) (and-left (p x || q x) _ h) e)
        (every-others p q xs (and-right (p x || q x) _ h)))
]
  where
    only : (a b : Bool) → (a || b) ≡ true → b ≡ false → a ≡ true
    only a b h k = ground arith

    pair : (a b : Bool) → a ≡ true → b ≡ true → (a && b) ≡ true
    pair a b h k = ground arith

module _ (accounts : List Account) (typed : All IsTyped accounts) (w : Voucher)
    (entry : IsEntry accounts w) where
  sides_some : (0 < length (debits w.lines)) × (0 < length (map turn (credits w.lines)))
  sides_some =
      let nil = not_nil accounts w.lines entry.known in
      let (k, above) = amount_above w.lines entry.two_lines nil entry.balanced in
      (
        some_line (debits w.lines) k (dr_sum w.lines ∙ above),
        some_line (map turn (credits w.lines)) k
            (cr_sum w.lines ∙ (sides_level w.lines entry.balanced ∙ above)),
      )

  pub sides-length : length (debits w.lines) + length (map turn (credits w.lines)) ≡ length w.lines
  sides-length =
      rw (length-turn (credits w.lines))
        (length-sides w.lines (not_nil accounts w.lines entry.known))

  touched :
      some_of (money_line accounts) w.lines ≡ true
      → some_of (in_money (heads accounts typed)) (debits w.lines ++ map turn (credits w.lines))
        ≡ true
  unfolding money_line
  touched h =
      rw
        (
          in_money-same accounts typed,
          some_of-append (money_line accounts) (debits w.lines) (map turn (credits w.lines)),
          some_of-turn (kind_passes accounts is_money_kind) (credits w.lines),
          ← some_of-sides (money_line accounts) w.lines (not_nil accounts w.lines entry.known),
        )
        h

  pub contra_passes :
      check_contra accounts w.lines ≡ ok tt
      → ((length (debits w.lines) == 1)
          && ((length (map turn (credits w.lines)) == 1)
              && some_of
                  (in_money (heads accounts typed))
                  (debits w.lines ++ map turn (credits w.lines))))
        ≡ true
  unfolding check_contra
  contra_passes h =
      let own = keep (λ l. money_line accounts l || line_of_kind accounts invest l) w.lines in
      let g =
        guard-eq-ok
          ((length own == length w.lines)
            && (length w.lines == 2)
            && some_of (money_line accounts) w.lines)
          _ h in
      let money = and-right ((length own == length w.lines) && (length w.lines == 2)) _ g in
      let two = same_number (length w.lines) 2 (
        and-right (length own == length w.lines) _
          (and-left _ (some_of (money_line accounts) w.lines) g)) in
      let (p, q) =
        one_each (length (debits w.lines)) (length (map turn (credits w.lines))) sides_some.0
          sides_some.1 (sides-length ∙ two) in
      rw (p, q) (touched money)

  -- What `check_fund` made sure of.
  pub record Funded : Type 0 where
    pub one_fund : (length (keep (line_of_kind accounts fund) (debits w.lines)) == 1) ≡ true
    pub one_income : (length (keep (line_of_kind accounts income) (credits w.lines)) == 1) ≡ true
    pub four : length w.lines ≡ 4
    pub charged :
        every
          (λ l. kind_passes accounts (in_kinds (fund ∷ expense ∷ fixed ∷ [])) l.0)
          (debits w.lines)
        ≡ true
    pub paid :
        every (λ l. money_line accounts l || line_of_kind accounts income l) (credits w.lines)
        ≡ true
    pub from_fund :
        eqb_ℤ
          (sum_by (λ l. l.1) (keep (line_of_kind accounts fund) (debits w.lines)))
          (sum_by (λ l. neg l.1) (keep (line_of_kind accounts income) (credits w.lines)))
        ≡ true
    pub from_money :
        eqb_ℤ
          (sum_by (λ l. neg l.1) (keep (line_of_kind accounts income) (credits w.lines)))
          (sum_by (λ l. neg l.1) (keep (money_line accounts) (credits w.lines)))
        ≡ true

  pub fund-Funded : check_fund accounts w.lines ≡ ok tt → Funded
  unfolding check_fund
  fund-Funded h =
      let one = length (keep (line_of_kind accounts fund) (debits w.lines)) == 1 in
      let two = length (keep (line_of_kind accounts income) (credits w.lines)) == 1 in
      let some_money = some_of (money_line accounts) w.lines in
      let four = length w.lines == 4 in
      let spent =
        every (λ l. kind_passes accounts (in_kinds (fund ∷ expense ∷ fixed ∷ [])) l.0)
          (debits w.lines) in
      let paid =
        every (λ l. money_line accounts l || line_of_kind accounts income l) (credits w.lines) in
      let (g1, h1) = guard->>-eq-ok (one && two && some_money && four) _ _ h in
      let (g2, h2) = guard->>-eq-ok (spent && paid) _ _ h1 in
      let g3 = guard-eq-ok _ _ h2 in
      record {
        one_fund = and-left one two (and-left (one && two) some_money (and-left _ four g1));
        one_income = and-right one two (and-left (one && two) some_money (and-left _ four g1));
        four = same_number (length w.lines) 4 (and-right (one && two && some_money) four g1);
        charged = and-left spent paid g2;
        paid = and-right spent paid g2;
        from_fund = and-left _ _ g3;
        from_money = and-right _ _ g3;
      }
