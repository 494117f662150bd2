-- ===== src/Examples/Rules.antt =====
-- The checker's rules of the entry types at the shop.
use rukka_folio.Prelude.{
  ◌≡◌, refl, true, false, [], ◌∷◌, pos, negsuc, ◌+ℤ◌, Text, txt, same, mem, map, ◌⊎◌, All,
  starts_with,
}
use rukka_folio.Dates.{D}
use rukka_folio.Kinds.{kind_info, is_money_kind}
use rukka_folio.Fault.{ok}
use rukka_folio.Vtypes.{word_of, plain_vtype}
use rukka_folio.Book.{Voucher, account, new_book, find_account}
use rukka_folio.Check.Book.{Read}
use rukka_folio.Check.Book.Refined.{head_from}
use rukka_folio.Entry.{validate_voucher}
use rukka_folio.Check.Rules.{
  money_words, mixed_words, income_words, fund_words, charged_words, type_rule,
}
use rukka_folio.Check.Rules.Agreed.{IsTyped}
use rukka_folio.Check.Rules.Further.{named_entry, correction_rule, has_further, type_checks}
use rukka_folio.Check.Rules.Checked.{type_checks-validate_voucher}
use rukka_folio.Book.{has_account, dr_lines, cr_lines}
use rukka_folio.Prelude.{some}
use rukka_folio.Examples.Sample.{paid_rent, shop}

shop-IsTyped : All IsTyped shop.accounts
unfolding new_book account txt same kind_info money_words mixed_words income_words fund_words
    charged_words mem is_money_kind
shop-IsTyped = (
  record { money = refl; mixed = refl; income_word = refl; fund_word = refl; charged = refl },
  (
    record { money = refl; mixed = refl; income_word = refl; fund_word = refl; charged = refl },
    (
      record { money = refl; mixed = refl; income_word = refl; fund_word = refl; charged = refl },
      (
        record { money = refl; mixed = refl; income_word = refl; fund_word = refl; charged = refl },
        (
          record {
            money = refl;
            mixed = refl;
            income_word = refl;
            fund_word = refl;
            charged = refl;
          },
          (
            record {
              money = refl;
              mixed = refl;
              income_word = refl;
              fund_word = refl;
              charged = refl;
            },
            tt,
          ),
        ),
      ),
    ),
  ),
)

rent-valid : validate_voucher shop.accounts paid_rent ≡ ok tt
unfolding validate_voucher new_book account txt ◌+ℤ◌ mem same has_account find_account is_money_kind
rent-valid = refl

rent-word : word_of paid_rent.vtype plain_vtype ≡ some (txt "Money out")
unfolding word_of plain_vtype txt same
rent-word = refl

type_checks-validate_voucher_example :
    (type_rule
        (map head_from shop.accounts)
        (txt "Money out")
        (dr_lines paid_rent)
        (cr_lines paid_rent)
      ≡ ok true)
    × ((has_further (txt "Money out") ≡ true)
        ⊎ (type_checks
              (map head_from shop.accounts)
              []
              (txt "SH-003")
              (txt "Money out")
              (txt "Rent of the shop")
              (dr_lines paid_rent)
              (cr_lines paid_rent)
            ≡ ok (true ∷ [])))
type_checks-validate_voucher_example =
    type_checks-validate_voucher shop.accounts [] paid_rent (txt "SH-003") (txt "Money out")
      (txt "Rent of the shop") shop-IsTyped rent-valid rent-word

-- The note of a correction names the entry that it fixes.
abbrev fixed_note : Text
fixed_note = txt "Wrong head: see Entry SH-002 of 05 May 2025, now put right"

fixed_note-named_entry : named_entry fixed_note ≡ some (txt "SH-002", txt "05 May 2025")
unfolding named_entry starts_with txt
fixed_note-named_entry = refl

abbrev first_entry : Read
first_entry = record {
  date = D 2025 5 5;
  vid = txt "SH-002";
  vtype = txt "Money out";
  lines = [];
  amount = pos 500;
  narr = [];
}

fixed_note-correction_rule : correction_rule (first_entry ∷ []) (txt "SH-003") fixed_note ≡ ok true
unfolding correction_rule named_entry starts_with same D txt
fixed_note-correction_rule = refl

itself-correction_rule : correction_rule (first_entry ∷ []) (txt "SH-002") fixed_note ≡ ok false
unfolding correction_rule named_entry starts_with same D txt
itself-correction_rule = refl

too_early-correction_rule : correction_rule [] (txt "SH-003") fixed_note ≡ ok false
unfolding correction_rule named_entry starts_with same D txt
too_early-correction_rule = refl

-- The builder lets an entry pass that the checker's further rule of its type does not.
abbrev put_down : Voucher
put_down = record paid_rent {
  vtype = txt "Journal (written off)";
  lines = (txt "Anil", pos 500) ∷ (txt "Sales A/c", negsuc 499) ∷ [];
}

put_down-valid : validate_voucher shop.accounts put_down ≡ ok tt
unfolding validate_voucher new_book account txt ◌+ℤ◌ mem same has_account find_account is_money_kind
put_down-valid = refl

put_down-type_checks :
    type_checks
      (map head_from shop.accounts)
      []
      (txt "SH-003")
      (txt "Written off")
      []
      (dr_lines put_down)
      (cr_lines put_down)
    ≡ ok (true ∷ false ∷ [])
unfolding type_checks new_book account txt ◌+ℤ◌ mem same dr_lines cr_lines money_words
put_down-type_checks = refl
