-- ===== src/Check/Rules/Checked.antt =====
-- What the checker's rules of the types say of the entries that the builder accepts.
use rukka_folio.Prelude.{
  ◌≡◌, refl, ◌⊎◌, inl, inr, Bool-cases, Bool, true, false, ◌||◌, List, [], ◌∷◌, map, some, Text,
  txt, same, All, arith,
}
use rukka_folio.Fault.{ok}
use rukka_folio.Vtypes.{word_of, plain_vtype}
use rukka_folio.Book.{Account, Line, Voucher, dr_lines, cr_lines}
use rukka_folio.Entry.{validate_voucher}
use rukka_folio.Check.Book.{Head, Read}
use rukka_folio.Check.Book.Refined.{head_from}
use rukka_folio.Check.Rules.{type_rule}
use rukka_folio.Check.Rules.Agreed.{IsTyped}
use rukka_folio.Check.Rules.Accepted.{type_rule-validate_voucher}
use rukka_folio.Check.Rules.Further.{further_types, has_further, further_rules, type_checks}

or-false : (a b : Bool) → (a || b) ≡ false → (a ≡ false) × (b ≡ false)
or-false a b h = ground (arith, h)

-- A type without a further rule is given to `ok` for no further rule.
further_rules_none :
    (heads : List Head) (before : List Read) (vid word narr : Text) (drs crs : List Line)
    → has_further word ≡ false
    → further_rules heads before vid word narr drs crs ≡ ok []
unfolding further_rules further_types txt
further_rules_none heads before vid word narr drs crs h =
    let (a, h1) = or-false (same word (txt "Correction")) _ h in
    let (b, h2) = or-false (same word (txt "Written off")) _ h1 in
    let (c, h3) = or-false (same word (txt "Deposit set off")) _ h2 in
    let (d, h4) = or-false (same word (txt "Deposit forfeited")) _ h3 in
    let (e, h5) = or-false (same word (txt "Retention released")) _ h4 in rw (a, b, c, d, e) refl

-- An entry passes `validate_voucher` of the builder, the accounts' words in the chart say what their
-- kinds say, and the entry is printed under the plain word of its type. Then the checker's `if` over the
-- types finds on the lines of its two sides what it asks for, whatever its number, its note and the
-- entries before it. From there to where the checker keeps the entry, it gives nothing else to `ok`,
-- but for the five types that have a further rule: Correction, Written off, Deposit set off, Deposit
-- forfeited and Retention released. Whether an entry of these five passes that rule is not said.
pub type_checks-validate_voucher :
    (accounts : List Account) (before : List Read) (w : Voucher) (vid word narr : Text)
    → All IsTyped accounts
    → validate_voucher accounts w ≡ ok tt
    → word_of w.vtype plain_vtype ≡ some word
    → (type_rule (map head_from accounts) word (dr_lines w) (cr_lines w) ≡ ok true)
      × ((has_further word ≡ true)
          ⊎ (type_checks (map head_from accounts) before vid word narr (dr_lines w) (cr_lines w)
              ≡ ok (true ∷ [])))
unfolding type_checks
type_checks-validate_voucher accounts before w vid word narr typed valid e =
    let heads = map head_from accounts in
    let first = type_rule-validate_voucher accounts w word typed valid e in
    (
      first,
      elim (Bool-cases (has_further word)) [
        | inl h ↦ inl h
        | inr h ↦ inr (
            rw (first, further_rules_none heads before vid word narr (dr_lines w) (cr_lines w) h)
              refl)
      ],
    )
