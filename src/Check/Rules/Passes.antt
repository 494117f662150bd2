-- ===== src/Check/Rules/Passes.antt =====
-- Every entry that the builder's `validate_vouchers` accepts passes the checker's rule for its type.
use rukka_folio.Prelude.{
  ◌≡◌, refl, sym, ◌∙◌, Bool, true, not, ◌&&◌, ◌||◌, List, [], ◌∷◌, ◌++◌, every, some_of, map,
  is_pos, is_neg, Text, mem, All, arith, Bool-cases, inl, inr,
}
use mathlib.Core.Path.{fun_ext}
use rukka_folio.Kinds.{Kind, in_kinds, is_money_kind, advance, loan}
use rukka_folio.Fault.{Result, ok, ◌>>=◌, touches_money, guard, guard->>-eq-ok, guard-eq-ok}
use rukka_folio.Book.{Account, Line, has_account}
use rukka_folio.Entry.{kind_passes, money_line, check_receipt, check_payment}
use rukka_folio.Entry.Known.{IsKnown}
use rukka_folio.Check.Book.{Head}
use rukka_folio.Check.Book.Refined.{head_from, not_nil}
use rukka_folio.Check.SidesTotal.{turn}
use rukka_folio.Check.Rules.{mixed_words, mixed_ok, type_in, in_money, all_lines}
use rukka_folio.Check.Rules.Agreed.{
  IsTyped, in_money-money_line, type_in-kind_passes, all_lines-every, every-turn, some_of-turn,
  some_of-append, every-not, some_of-sides, debits, credits,
}

module _ (accounts : List Account) (typed : All IsTyped accounts) where
  abbrev pub heads : List Head
  heads = map head_from accounts

  pub in_money-same : in_money heads ≡ money_line accounts
  in_money-same = fun_ext (in_money-money_line accounts typed)

  abbrev pub Named : List Line → Type 0
  Named = All (λ l. has_account l.0 accounts ≡ true)

  pub debits-Named : (ls : List Line) → All (IsKnown accounts) ls → Named (debits ls)
  debits-Named [] h = tt
  debits-Named (l ∷ ls) h = elim (Bool-cases (is_pos l.1)) [
    | inl e ↦ rw e (h.0.0, debits-Named ls h.1)
    | inr e ↦ rw e (debits-Named ls h.1)
  ]

  pub credits-Named : (ls : List Line) → All (IsKnown accounts) ls → Named (map turn (credits ls))
  credits-Named [] h = tt
  credits-Named (l ∷ ls) h = elim (Bool-cases (is_neg l.1)) [
    | inl e ↦ rw e (h.0.0, credits-Named ls h.1)
    | inr e ↦ rw e (credits-Named ls h.1)
  ]

  pub each :
      (p : Line → Result Bool) (q : Line → Bool)
      → ((l : Line) → has_account l.0 accounts ≡ true → p l ≡ ok (q l))
      → (ls : List Line) → Named ls
      → All (λ l. p l ≡ ok (q l)) ls
  each p q k [] h = tt
  each p q k (l ∷ ls) h = (k l h.0, each p q k ls h.1)

  worded :
      (words : List Text) (p : Kind → Bool)
      → ((a : Account) → IsTyped a → mem a.group words ≡ p a.kind)
      → (rest : List Account) → All IsTyped rest
      → All (λ a. mem a.group words ≡ p a.kind) rest
  worded words p k [] h = tt
  worded words p k (a ∷ rest) h = (k a h.0, worded words p k rest h.1)

  pub asks :
      (words : List Text) (p : Kind → Bool)
      → ((a : Account) → IsTyped a → mem a.group words ≡ p a.kind)
      → (l : Line) → has_account l.0 accounts ≡ true
      → type_in heads words l.0 ≡ ok (kind_passes accounts p l.0)
  asks words p k l h = type_in-kind_passes words p accounts l.0 (worded words p k accounts typed) h

  mixed-asks :
      (l : Line)
      → has_account l.0 accounts ≡ true
      → mixed_ok heads l
        ≡ ok (money_line accounts l || kind_passes accounts (in_kinds (advance ∷ loan ∷ [])) l.0)
  mixed-asks l h = elim (Bool-cases (money_line accounts l)) [
    | inl e ↦ rw (in_money-money_line accounts typed l, e) refl
    | inr e ↦
        rw (in_money-money_line accounts typed l, e)
          (asks mixed_words (in_kinds (advance ∷ loan ∷ [])) (λ a t. t.mixed) l h)
  ]

  module _ (ls : List Line) (known : All (IsKnown accounts) ls) where
    pub receipt_passes :
        check_receipt accounts ls ≡ ok tt → every (in_money heads) (debits ls) ≡ true
    unfolding check_receipt
    receipt_passes h = rw in_money-same (guard-eq-ok _ _ ((guard->>-eq-ok _ _ _ h).1))

    payment-facts :
        check_payment accounts ls ≡ ok tt
        → (some_of (money_line accounts) ls ≡ true)
          × (every
                (λ l.
                  money_line accounts l
                  || kind_passes accounts (in_kinds (advance ∷ loan ∷ [])) l.0)
                (credits ls)
              ≡ true)
          × (every (λ l. not (money_line accounts l)) (debits ls) ≡ true)
    unfolding check_payment
    payment-facts h =
        let (g1, h1) = guard->>-eq-ok (some_of (money_line accounts) ls) _ _ h in
        let (g2, h2) =
          guard->>-eq-ok
            (every
              (λ l.
                money_line accounts l || kind_passes accounts (in_kinds (advance ∷ loan ∷ [])) l.0)
              (credits ls))
            _ _ h1 in
        (g1, g2, guard-eq-ok (every (λ l. not (money_line accounts l)) (debits ls)) _ h2)

    right : (a b : Bool) → (a || b) ≡ true → not a ≡ true → b ≡ true
    right a b h k = ground arith

    pub payment_passes :
        check_payment accounts ls ≡ ok tt
        → (do
          holds ← all_lines heads (mixed_ok heads) (map turn (credits ls))
          ok (
              holds
              && (some_of (in_money heads) (map turn (credits ls))
                  && not (some_of (in_money heads) (debits ls)))))
          ≡ ok true
    unfolding money_line
    payment_passes h =
        let (g1, g2, g3) = payment-facts h in
        let no_debit : not (some_of (money_line accounts) (debits ls)) ≡ true =
          sym (every-not (money_line accounts) (debits ls)) ∙ g3 in
        let a_credit : some_of (money_line accounts) (credits ls) ≡ true =
          right (some_of (money_line accounts) (debits ls)) _
            (sym (some_of-sides (money_line accounts) ls (not_nil accounts ls known)) ∙ g1)
            no_debit in
        rw
          (
            all_lines-every heads (mixed_ok heads)
                (λ l.
                  kind_passes accounts is_money_kind l.0
                  || kind_passes accounts (in_kinds (advance ∷ loan ∷ [])) l.0)
                (map turn (credits ls))
                (each (mixed_ok heads) _ mixed-asks (map turn (credits ls))
                  (credits-Named ls known)),
            every-turn
                (λ n.
                  kind_passes accounts is_money_kind n
                  || kind_passes accounts (in_kinds (advance ∷ loan ∷ [])) n)
                (credits ls),
            g2,
            in_money-same,
            some_of-turn (kind_passes accounts is_money_kind) (credits ls),
            a_credit,
            no_debit,
          )
          refl

    pub others_pass :
        guard (not (some_of (money_line accounts) ls)) touches_money ≡ ok tt
        → not (some_of (in_money heads) (debits ls ++ map turn (credits ls))) ≡ true
    unfolding money_line
    others_pass h =
        rw
          (
            in_money-same,
            some_of-append (money_line accounts) (debits ls) (map turn (credits ls)),
            some_of-turn (kind_passes accounts is_money_kind) (credits ls),
            ← some_of-sides (money_line accounts) ls (not_nil accounts ls known),
          )
          (guard-eq-ok _ _ h)
