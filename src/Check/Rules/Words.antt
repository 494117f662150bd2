-- ===== src/Check/Rules/Words.antt =====
-- The builder's types and the checker's plain words are told apart by the same tests.
use rukka_folio.Prelude.{
  ◌≡◌, refl, sym, ◌∙◌, ap, Bool, true, false, not, ◌&&◌, [], ◌∷◌, every, Text, txt, same, arith,
  Bool-cases, inl, inr, and-left, and-right, some, same→eq,
}
use rukka_folio.Vtypes.{Words, word_of, plain_vtype}

-- A type and its plain word, as the two rules look at them.
same_test : Bool → Bool → Bool
same_test true b = b
same_test false b = not b

same_test-eq : (a b : Bool) → same_test a b ≡ true → b ≡ a
unfolding same_test
same_test-eq true b h = h
same_test-eq false b h = ground (arith, h)

agrees : Text → Text → Bool
unfolding txt same same_test
agrees v word =
    same_test (same v (txt "Contra")) (same word (txt "Transfer"))
    && (same_test (same v (txt "Receipt")) (same word (txt "Money in"))
        && (same_test (same v (txt "Payment")) (same word (txt "Money out"))
            && same_test (same v (txt "Payment (from a fund)"))
                (same word (txt "Paid from a fund"))))

agrees-word_of :
    (v : Text) (table : Words) (word : Text)
    → every (λ p. agrees p.0 p.1) table ≡ true
    → word_of v table ≡ some word
    → agrees v word ≡ true
unfolding word_of
agrees-word_of v [] word h e = cc
agrees-word_of v ((k, x) ∷ ws) word h e = elim (Bool-cases (same k v)) [
  | inl m ↦
      let same_word : x ≡ word = some-injective (rw m at e) in
      ap (λ t. agrees t word) (sym (same→eq k v m))
      ∙ (ap (agrees k) (sym same_word) ∙ and-left (agrees k x) _ h)
  | inr m ↦ agrees-word_of v ws word (and-right (agrees k x) _ h) (rw m at e)
]
  where
    some-injective : {a b : Text} → some a ≡ some b → a ≡ b
    some-injective e = cc

plain_agrees : every (λ p. agrees p.0 p.1) plain_vtype ≡ true
unfolding plain_vtype agrees
plain_agrees = refl

-- The four tests.
pub record Tests (v word : Text) : Type 0 where
  pub transfer : same word (txt "Transfer") ≡ same v (txt "Contra")
  pub money_in : same word (txt "Money in") ≡ same v (txt "Receipt")
  pub money_out : same word (txt "Money out") ≡ same v (txt "Payment")
  pub from_fund : same word (txt "Paid from a fund") ≡ same v (txt "Payment (from a fund)")

pub Tests-of : (v word : Text) → word_of v plain_vtype ≡ some word → Tests v word
unfolding agrees
Tests-of v word e =
    let all = agrees-word_of v plain_vtype word plain_agrees e in
    let a = same_test (same v (txt "Contra")) (same word (txt "Transfer")) in
    let b = same_test (same v (txt "Receipt")) (same word (txt "Money in")) in
    let c = same_test (same v (txt "Payment")) (same word (txt "Money out")) in
    let more = and-right a _ all in
    record {
      transfer = same_test-eq _ _ (and-left a _ all);
      money_in = same_test-eq _ _ (and-left b _ more);
      money_out = same_test-eq _ _ (and-left c _ (and-right b _ more));
      from_fund = same_test-eq _ _ (and-right c _ (and-right b _ more));
    }
