-- ===== src/Fault.antt =====
-- What a failed `assert` or a missing key of docs/accounting/reference-books/build.py raises, one
-- constructor for each, and the results of code that may raise.
use rukka_folio.Prelude.{Bool, true, false, ◌≡◌, refl, Option, none, some}

pub data Fault : Type 0 where
  key_error value_error duplicate_account date_outside_year : Fault
  few_lines unbalanced repeated_account unknown_account zero_line bad_vtype : Fault
  transfer_shape fund_shape fund_sides fund_amount : Fault
  no_money_account receipt_side payment_credit payment_debit touches_money : Fault
  gollak_emptied gollak_filled : Fault
  trial_balance openings_unbalanced branch_shut negative_opening money_negative : Fault
  card_overpaid over_settled fixed_capital_moved no_cash_account entry_count : Fault
  no_profit close_unbalanced no_owner result_not_closed head_not_closed : Fault
  zero_division columns_differ make_up_differs ageing_differs cash_book_differs : Fault
  chart_differs month_differs trial_differs appropriation_differs rp_shape rp_differs : Fault
  own_money_differs partner_differs balance_sheet_differs carry_forward_differs : Fault
  mirror_missing entry_in_one_book pair_closing_differs pair_openings_differ : Fault
  pair_entries_differ kept_differs pair_balances_differ no_entry_kind : Fault
  not_a_row not_named few_cells : Fault

-- What a method that may raise leaves: the fault, or the value.
pub data Result {ℓ} (X : Type ℓ) : Type ℓ where
  err : Fault → Result X
  ok : X → Result X

-- `assert holds`
abbrev pub guard : (holds : Bool) → Fault → Result (Unit {0})
guard false fault = err fault
guard true fault = ok tt

-- `d[k]`, with the value that `d` has at `k`.
abbrev pub or_key_error {ℓ} : {X : Type ℓ} → Option X → Result X
or_key_error none = err key_error
or_key_error (some x) = ok x

-- One statement after another, which a fault ends.
infixl 5 ◌>>=◌
abbrev pub ◌>>=◌ {ℓ κ} : {X : Type ℓ} → {Y : Type κ} → Result X → (X → Result Y) → Result Y
err fault >>= next = err fault
ok x >>= next = next x

infixl 5 ◌>>◌
abbrev pub ◌>>◌ {κ} : {Y : Type κ} → Result (Unit {0}) → Result Y → Result Y
before >> after = before >>= λ done. after

-- A chain that returned: its first statement returned, and the rest returned from there.
pub >>=-eq-ok {κ ℓ} :
    {X : Type κ} {Y : Type ℓ} (first : Result X) (next : X → Result Y) {y : Y}
    → (first >>= next) ≡ ok y
    → (x : X) × (first ≡ ok x) × (next x ≡ ok y)
>>=-eq-ok (err fault) next returned = cc
>>=-eq-ok (ok x) next returned = (x, refl, returned)

pub guard-eq-ok : (holds : Bool) (fault : Fault) → guard holds fault ≡ ok tt → holds ≡ true
guard-eq-ok false fault returned = cc
guard-eq-ok true fault returned = refl

-- A chain that begins with an `assert` and returns: the test held, and the rest returned.
pub guard->>-eq-ok {ℓ} :
    {B : Type ℓ} (b : Bool) (e : Fault) (k : Result B) {r : B}
    → (guard b e >> k) ≡ ok r
    → (b ≡ true) × (k ≡ ok r)
guard->>-eq-ok true e k h = (refl, h)
guard->>-eq-ok false e k h = cc

-- An `assert` that holds, before a result.
pub guard->>-ok {ℓ} :
    {A : Type ℓ} (b : Bool) (e : Fault) (x : A) → b ≡ true → (y : A) × ((guard b e >> ok x) ≡ ok y)
guard->>-ok b e x p = (x, rw p)
