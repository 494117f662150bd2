-- ===== src/Entry.antt =====
-- `Book.validate_vouchers` and `formal_vtype` of docs/accounting/reference-books/build.py: what an
-- entry must be before it is posted. A name's kind is asked for only after the name is known to be
-- an account's, so the tests below are false of a name that is not.
pub mod Known
use rukka_folio.Prelude.{
  ℕ, ◌+◌, Bool, true, false, not, ◌&&◌, ◌||◌, List, [], ◌∷◌, leb, ◌==◌, if◌then◌else◌, ℤ, neg,
  sum_by, is_pos, is_neg, is_nil, eqb_ℤ, length, keep, every, some_of, Text, txt, same, mem, map,
  none, some,
}
use rukka_folio.Kinds.{
  Kind, cash, bank, gollak, income, expense, fixed, fund, advance, loan, invest, is_kind, in_kinds,
  is_money_kind, contra_kinds,
}
use rukka_folio.Vtypes.{vtypes}
use rukka_folio.Fault.{
  Result, ok, err, ◌>>=◌, ◌>>◌, guard, few_lines, unbalanced, repeated_account, unknown_account,
  zero_line, bad_vtype, transfer_shape, fund_shape, fund_sides, fund_amount, no_money_account,
  receipt_side, payment_credit, payment_debit, touches_money, gollak_emptied, gollak_filled,
}
use rukka_folio.Book.{Account, Voucher, Line, find_account, has_account}

-- `len(names) == len(set(names))`
unfoldable pub distinct : List Text → Bool
distinct [] = true
distinct (n ∷ ns) = not (mem n ns) && distinct ns

abbrev pub names_of : List Line → List Text
names_of = map (λ l. l.0)

module _ (accounts : List Account) where
  -- A test of `self.accounts[n].kind`.
  unfoldable pub kind_passes : (Kind → Bool) → Text → Bool
  kind_passes p n = elim (find_account n accounts) [ none ↦ false | some a ↦ p a.kind ]

  -- The loop over the lines: each account is known, and no line is nil.
  unfoldable pub check_lines : List Line → Result (Unit {0})
  check_lines [] = ok tt
  check_lines (l ∷ ls) =
      let rest = check_lines ls in
      do guard (has_account l.0 accounts) unknown_account; guard (not (is_nil l.1)) zero_line; rest

  unfoldable pub money_line : Line → Bool
  unfolding kind_passes
  money_line l = kind_passes is_money_kind l.0

  unfoldable pub line_of_kind : Kind → Line → Bool
  unfolding kind_passes
  line_of_kind k l = kind_passes (is_kind k) l.0

  -- A transfer joins two own money or deposit accounts, one of them money.
  unfoldable pub check_contra : List Line → Result (Unit {0})
  unfolding money_line line_of_kind
  check_contra ls =
      let own = keep (λ l. money_line l || line_of_kind invest l) ls in
      guard ((length own == length ls) && (length ls == 2) && some_of money_line ls) transfer_shape

  -- A payment from a fund: the cost against the money, the fund against its transfer.
  unfoldable pub check_fund : List Line → Result (Unit {0})
  unfolding money_line line_of_kind kind_passes
  check_fund ls =
      let debits = keep (λ l. is_pos l.1) ls in
      let credits = keep (λ l. is_neg l.1) ls in
      let fund_part = sum_by (λ l. l.1) (keep (line_of_kind fund) debits) in
      let income_part = sum_by (λ l. neg l.1) (keep (line_of_kind income) credits) in
      let money_part = sum_by (λ l. neg l.1) (keep money_line credits) in
      do
        guard
            ((length (keep (line_of_kind fund) debits) == 1)
              && (length (keep (line_of_kind income) credits) == 1)
              && some_of money_line ls
              && (length ls == 4))
            fund_shape
        guard
            (every (λ l. kind_passes (in_kinds (fund ∷ expense ∷ fixed ∷ [])) l.0) debits
              && every (λ l. money_line l || line_of_kind income l) credits)
            fund_sides
        guard (eqb_ℤ fund_part income_part && eqb_ℤ income_part money_part) fund_amount

  unfoldable pub check_receipt : List Line → Result (Unit {0})
  unfolding money_line
  check_receipt ls = do
    guard (some_of money_line ls) no_money_account
    guard (every money_line (keep (λ l. is_pos l.1) ls)) receipt_side

  unfoldable pub check_payment : List Line → Result (Unit {0})
  unfolding money_line kind_passes
  check_payment ls = do
    guard (some_of money_line ls) no_money_account
    guard
        (every (λ l. money_line l || kind_passes (in_kinds (advance ∷ loan ∷ [])) l.0)
          (keep (λ l. is_neg l.1) ls))
        payment_credit
    guard (every (λ l. not (money_line l)) (keep (λ l. is_pos l.1) ls)) payment_debit

  -- The `if` and `elif` over the voucher's type.
  unfoldable pub check_type : Text → List Line → Result (Unit {0})
  unfolding check_contra check_fund check_receipt check_payment txt
  check_type vtype ls =
      if same vtype (txt "Contra")
      then check_contra ls
      else if same vtype (txt "Payment (from a fund)")
      then check_fund ls
      else if same vtype (txt "Receipt")
      then check_receipt ls
      else if same vtype (txt "Payment")
      then check_payment ls
      else guard (not (some_of money_line ls)) touches_money

  -- The gollak is only counted in, and emptied into cash or bank.
  unfoldable pub check_gollak_line : Text → List Line → Line → Result (Unit {0})
  unfolding line_of_kind kind_passes txt
  check_gollak_line vtype ls l =
      if line_of_kind gollak l
      then (if is_neg l.1
          then guard
              (same vtype (txt "Contra")
                && every (λ m. kind_passes (in_kinds (cash ∷ bank ∷ [])) m.0)
                    (keep (λ m. is_pos m.1) ls))
              gollak_emptied
          else guard
              (same vtype (txt "Receipt")
                && every (line_of_kind income) (keep (λ m. is_neg m.1) ls))
              gollak_filled)
      else ok tt

  unfoldable pub check_gollak : Text → List Line → List Line → Result (Unit {0})
  unfolding check_gollak_line
  check_gollak vtype ls [] = ok tt
  check_gollak vtype ls (l ∷ more) =
      let rest = check_gollak vtype ls more in do check_gollak_line vtype ls l; rest

  -- One round of `validate_vouchers`.
  unfoldable pub validate_voucher : Voucher → Result (Unit {0})
  unfolding distinct check_lines check_type check_gollak vtypes
  validate_voucher vch = do
    guard (leb 2 (length vch.lines)) few_lines
    guard (is_nil (sum_by (λ l. l.1) vch.lines)) unbalanced
    guard (distinct (names_of vch.lines)) repeated_account
    check_lines vch.lines
    guard (mem vch.vtype vtypes) bad_vtype
    check_type vch.vtype vch.lines
    check_gollak vch.vtype vch.lines vch.lines

  unfoldable pub validate_vouchers : List Voucher → Result (Unit {0})
  unfolding validate_voucher
  validate_vouchers [] = ok tt
  validate_vouchers (w ∷ ws) = let rest = validate_vouchers ws in do validate_voucher w; rest

  -- `formal_vtype(b, v)`
  unfoldable pub formal_vtype : Voucher → Text
  unfolding kind_passes txt
  formal_vtype vch =
      let contra = λ (l : Line). kind_passes (in_kinds contra_kinds) l.0 in
      if not (same vch.vtype (txt "Contra")) || every contra vch.lines
      then vch.vtype
      else if some_of (λ l. contra l && is_neg l.1) vch.lines
      then txt "Payment"
      else if some_of (λ l. contra l && is_pos l.1) vch.lines
      then txt "Receipt"
      else txt "Journal"
