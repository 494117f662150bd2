-- ===== src/Check/Rules/Accepted.antt =====
-- Every entry that `validate_vouchers` of the builder accepts passes what the `if`, `elif`, `else` over
-- the type asks in the checker.
use rukka_folio.Prelude.{
  ◌≡◌, refl, ◌∙◌, ap, Bool, true, false, not, ◌==◌, List, [], ◌∷◌, length, keep, map, neg, sum_by,
  Text, txt, same, mem, All, Bool-cases, inl, inr, some, same→eq, leb, is_nil,
}
use rukka_folio.Kinds.{is_kind, in_kinds, is_money_kind, fund, income, expense, fixed}
use rukka_folio.Fault.{
  few_lines, unbalanced, repeated_account, bad_vtype, ok, ◌>>◌, guard, guard->>-eq-ok, >>=-eq-ok,
}
use rukka_folio.Vtypes.{word_of, plain_vtype, vtypes}
use rukka_folio.Book.{Account, Line, Voucher, has_account, dr_lines, cr_lines}
use rukka_folio.Entry.{
  distinct, names_of, check_lines, check_gollak, kind_passes, money_line, line_of_kind, check_fund,
  check_type, validate_voucher,
}
use rukka_folio.Entry.Known.{IsEntry, validate_voucher-IsEntry}
use rukka_folio.Check.Book.Refined.{head_from}
use rukka_folio.Check.SidesTotal.{turn}
use rukka_folio.Check.Rules.{
  income_words, fund_words, charged_words, other_than_income, type_in, first_amount, fund_rule,
  type_rule,
}
use rukka_folio.Check.Rules.Agreed.{
  IsTyped, all_lines-every, pick_lines-keep, every-turn, keep-turn, length-turn, sum-turn, debits,
  credits,
}
use rukka_folio.Check.Rules.Passes.{
  heads, in_money-same, debits-Named, credits-Named, each, asks, receipt_passes, payment_passes,
  others_pass,
}
use rukka_folio.Check.Rules.Shapes.{
  one-first, every-others, sides-length, contra_passes, fund-Funded,
}
use rukka_folio.Check.Rules.Words.{Tests-of}

module _ (accounts : List Account) (typed : All IsTyped accounts) (w : Voucher)
    (entry : IsEntry accounts w) where
  abbrev crs : List Line
  crs = map turn (credits w.lines)

  abbrev drs : List Line
  drs = debits w.lines

  is_fund : Line → Bool
  unfolding line_of_kind
  is_fund = line_of_kind accounts fund

  not-asks :
      (l : Line)
      → has_account l.0 accounts ≡ true
      → other_than_income (heads accounts typed) l
        ≡ ok (not (kind_passes accounts (is_kind income) l.0))
  not-asks l h =
      rw (asks accounts typed income_words (is_kind income) (λ a t. t.income_word) l h) refl

  fund_passes :
      check_fund accounts w.lines ≡ ok tt → fund_rule (heads accounts typed) drs crs ≡ ok true
  unfolding fund_rule line_of_kind money_line
  fund_passes h =
      let f = fund-Funded accounts typed w entry h in
      let dr_names = debits-Named accounts typed w.lines entry.known in
      let cr_names = credits-Named accounts typed w.lines entry.known in
      let hs = heads accounts typed in
      let I = λ (n : Text). kind_passes accounts (is_kind income) n in
      let taken = keep (λ (l : Line). I l.0) (credits w.lines) in
      let first_income : first_amount hs (map turn taken) ≡ sum_by (λ l. neg l.1) taken =
        one-first hs (map turn taken) (ap (λ n. n == 1) (length-turn taken) ∙ f.one_income)
        ∙ sum-turn taken in
      rw
        (
          pick_lines-keep hs (λ l. type_in hs fund_words l.0)
              (λ l. kind_passes accounts (is_kind fund) l.0) drs
              (each accounts typed _ _
                (asks accounts typed fund_words (is_kind fund) (λ a t. t.fund_word)) drs dr_names),
          pick_lines-keep hs (λ l. type_in hs income_words l.0) (λ l. I l.0) crs
              (each accounts typed _ _
                (asks accounts typed income_words (is_kind income) (λ a t. t.income_word)) crs
                cr_names),
          pick_lines-keep hs (other_than_income hs) (λ l. not (I l.0)) crs
              (each accounts typed _ _ not-asks crs cr_names),
          all_lines-every hs (λ l. type_in hs charged_words l.0)
              (λ l. kind_passes accounts (in_kinds (fund ∷ expense ∷ fixed ∷ [])) l.0) drs
              (each accounts typed _ _
                (asks accounts typed charged_words (in_kinds (fund ∷ expense ∷ fixed ∷ []))
                  (λ a t. t.charged))
                drs dr_names),
          f.one_fund,
          keep-turn I (credits w.lines),
          length-turn (keep (λ l. I l.0) (credits w.lines)),
          f.one_income,
          sides-length accounts typed w entry,
          f.four,
          in_money-same accounts typed,
          keep-turn (λ n. not (I n)) (credits w.lines),
          every-turn (kind_passes accounts is_money_kind)
              (keep (λ l. not (I l.0)) (credits w.lines)),
          every-others (money_line accounts) (line_of_kind accounts income) (credits w.lines)
              f.paid,
          one-first hs (keep (λ l. kind_passes accounts (is_kind fund) l.0) drs) f.one_fund,
          first_income,
          keep-turn (kind_passes accounts is_money_kind) (credits w.lines),
          sum-turn (keep (money_line accounts) (credits w.lines)),
          f.from_fund,
          f.from_money,
          f.charged,
        )
        refl

-- `validate_voucher` returned, so its check of the type did.
checked_type :
    (accounts : List Account) (w : Voucher)
    → validate_voucher accounts w ≡ ok tt
    → check_type accounts w.vtype w.lines ≡ ok tt
unfolding validate_voucher
checked_type accounts w h =
    let (a, h1) = guard->>-eq-ok (leb 2 (length w.lines)) few_lines _ h in
    let (b, h2) = guard->>-eq-ok (is_nil (sum_by (λ l. l.1) w.lines)) unbalanced _ h1 in
    let (c, h3) = guard->>-eq-ok (distinct (names_of w.lines)) repeated_account _ h2 in
    let (d, e, h4) =
      >>=-eq-ok (check_lines accounts w.lines)
        (λ u.
          guard (mem w.vtype vtypes) bad_vtype
          >> (check_type accounts w.vtype w.lines >> check_gollak accounts w.vtype w.lines w.lines))
        h3 in
    let (f, h5) = guard->>-eq-ok (mem w.vtype vtypes) bad_vtype _ h4 in
    let (g, k, h6) =
      >>=-eq-ok (check_type accounts w.vtype w.lines)
        (λ u. check_gollak accounts w.vtype w.lines w.lines) h5 in
    k

-- A text is not another one.
not_other : (v s t : Text) → same v s ≡ true → same s t ≡ false → same v t ≡ false
not_other v s t h k = ap (λ x. same x t) (same→eq v s h) ∙ k

-- The entry passes the `if` over the types, under the plain word of its type.
pub type_rule-validate_voucher :
    (accounts : List Account) (w : Voucher) (word : Text)
    → All IsTyped accounts
    → validate_voucher accounts w ≡ ok tt
    → word_of w.vtype plain_vtype ≡ some word
    → type_rule (map head_from accounts) word (dr_lines w) (cr_lines w) ≡ ok true
unfolding type_rule check_type dr_lines cr_lines txt same
type_rule-validate_voucher accounts w word typed valid e =
    let entry = validate_voucher-IsEntry accounts w valid in
    let checked = checked_type accounts w valid in
    let t = Tests-of w.vtype word e in
    elim (Bool-cases (same w.vtype (txt "Contra"))) [
      | inl a ↦ rw (t.transfer, a) (ap ok (contra_passes accounts typed w entry (rw a at checked)))
      | inr a ↦ elim (Bool-cases (same w.vtype (txt "Receipt"))) [
        | inl b ↦
            let no_fund = not_other w.vtype (txt "Receipt") (txt "Payment (from a fund)") b refl in
            rw (t.transfer, a, t.money_in, b)
              (ap ok
                (receipt_passes accounts typed w.lines entry.known (rw (a, no_fund, b) at checked)))
        | inr b ↦ elim (Bool-cases (same w.vtype (txt "Payment"))) [
          | inl c ↦
              let no_fund =
                not_other w.vtype (txt "Payment") (txt "Payment (from a fund)") c refl in
              rw (t.transfer, a, t.money_in, b, t.money_out, c)
                (payment_passes accounts typed w.lines entry.known
                  (rw (a, no_fund, b, c) at checked))
          | inr c ↦ elim (Bool-cases (same w.vtype (txt "Payment (from a fund)"))) [
            | inl d ↦
                rw (t.transfer, a, t.money_in, b, t.money_out, c, t.from_fund, d)
                  (fund_passes accounts typed w entry (rw (a, d) at checked))
            | inr d ↦
                rw (t.transfer, a, t.money_in, b, t.money_out, c, t.from_fund, d)
                  (ap ok
                    (others_pass accounts typed w.lines entry.known (rw (a, d, b, c) at checked)))
          ]
        ]
      ]
    ]
