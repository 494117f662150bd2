-- ===== src/Report/Receipts.antt =====
-- `sec_npo_rp` of docs/accounting/reference-books/build.py: the Receipts & Payments Account.
pub mod Posted
pub mod Vouchers
pub mod Funds
pub mod Net
pub mod Items
pub mod Agrees
use rukka_folio.Prelude.{
  ℕ, Bool, true, false, not, ◌&&◌, ◌||◌, List, [], ◌∷◌, ◌++◌, if◌then◌else◌, map, ℤ, pos, neg, ◌+ℤ◌,
  eqb_ℤ, is_pos, is_neg, sum_by, keep, Text, txt, cat, str_of, same, starts_with,
}
use rukka_folio.Money.{fmt, fmt_zero}
use rukka_folio.Kinds.{advance, loan, expense, fixed, in_kinds, is_money_kind}
use rukka_folio.Fault.{Result, ok, ◌>>=◌, ◌>>◌, guard, or_key_error, rp_shape, rp_differs}
use rukka_folio.Book.{Account, Book, Line, Voucher, find_account}
use rukka_folio.Close.Balances.{Balances, has_name, balance_of, add_to}
use rukka_folio.Report.Markdown.{Page, l, r, table, bold, head_line}

-- `receipts` and `payments`.
pub record Flows : Type 0 where
  pub receipts : Balances
  pub payments : Balances

unfoldable pub add_flow : Line → Flows → Flows
add_flow x s =
    if is_neg x.1
    then record s { receipts = add_to x.0 (neg x.1) s.receipts }
    else record s { payments = add_to x.0 x.1 s.payments }

abbrev pub add_payment : Line → Flows → Flows
add_payment x s = record s { payments = add_to x.0 x.1 s.payments }

module _ (accounts : List Account) where
  -- A line of an entry from a fund: the cost is a payment.
  unfoldable pub fund_line : Line → Flows → Result Flows
  fund_line x s =
      if is_pos x.1
      then (do
        a ← or_key_error (find_account x.0 accounts)
        ok (if in_kinds (expense ∷ fixed ∷ []) a.kind then add_payment x s else s))
      else ok s

  unfoldable pub fund_lines : List Line → Flows → Result Flows
  fund_lines [] s = ok s
  fund_lines (x ∷ xs) s = do s' ← fund_line x s; fund_lines xs s'

  -- A line of any other entry that is counted.
  unfoldable pub flow_line : Text → Line → Flows → Result Flows
  unfolding txt
  flow_line vtype x s = do
    a ← or_key_error (find_account x.0 accounts)
    if is_money_kind a.kind
        then ok s
        else (guard
              ((same vtype (txt "Receipt") || same vtype (txt "Payment"))
                && (is_pos x.1 || not (in_kinds (advance ∷ loan ∷ []) a.kind)))
              rp_shape
            >> ok (add_flow x s))

  unfoldable pub flow_lines : Text → List Line → Flows → Result Flows
  flow_lines vtype [] s = ok s
  flow_lines vtype (x ∷ xs) s = do s' ← flow_line vtype x s; flow_lines vtype xs s'

  -- One round of the loop over the vouchers.
  unfoldable pub flow_voucher : Voucher → Flows → Result Flows
  unfolding txt
  flow_voucher w s =
      if same w.vtype (txt "Contra") || starts_with w.vtype (txt "Journal")
      then ok s
      else if same w.vtype (txt "Payment (from a fund)")
      then fund_lines w.lines s
      else flow_lines w.vtype w.lines s

  unfoldable pub flows_of : List Voucher → Flows → Result Flows
  flows_of [] s = ok s
  flows_of (w ∷ ws) s = do s' ← flow_voucher w s; flows_of ws s'

abbrev pub no_flows : Flows
no_flows = record { receipts = []; payments = [] }

-- The names of the accounts that a dictionary has, in the book's order, with their amounts.
unfoldable pub flow_items : Text → Balances → List Account → List Line
flow_items word d [] = []
flow_items word d (a ∷ rest) =
    let more = flow_items word d rest in
    if has_name a.name d then (word ++ a.name, balance_of a.name d) ∷ more else more

abbrev pub money_accounts : List Account → List Account
money_accounts = keep (λ a. is_money_kind a.kind)

-- `left` and `right`.
unfoldable pub left_items : List Account → Flows → List Line
unfolding txt
left_items accounts s =
    map (λ a. (txt "To Opening balance — " ++ a.name, a.opening)) (money_accounts accounts)
    ++ flow_items (txt "To ") s.receipts accounts

unfoldable pub right_items : List Account → Flows → List Line
unfolding txt
right_items accounts s =
    flow_items (txt "By ") s.payments accounts
    ++ map (λ a. (txt "By Closing balance — " ++ a.name, a.closing)) (money_accounts accounts)

abbrev pub item_total : List Line → ℤ
item_total = sum_by (λ x. x.1)

-- The two sides next to each other.
unfoldable pub side_by_side : List Line → List Line → List (List Text)
unfolding fmt_zero
side_by_side [] [] = []
side_by_side (x ∷ xs) [] = (x.0 ∷ fmt_zero x.1 ∷ [] ∷ [] ∷ []) ∷ side_by_side xs []
side_by_side [] (y ∷ ys) = ([] ∷ [] ∷ y.0 ∷ fmt_zero y.1 ∷ []) ∷ side_by_side [] ys
side_by_side (x ∷ xs) (y ∷ ys) = (x.0 ∷ fmt_zero x.1 ∷ y.0 ∷ fmt_zero y.1 ∷ []) ∷ side_by_side xs ys

unfoldable pub rp_page : Book → ℕ → Flows → Page
unfolding left_items right_items side_by_side head_line table bold fmt txt str_of
rp_page b num s =
    let left = left_items b.accounts s in
    let right = right_items b.accounts s in
    (cat (txt "#### 4." ∷ str_of num ∷ txt " Receipts & Payments Account for FY 2025-26" ∷ [])
      ∷ []
      ∷ head_line b.name (txt "FY 2025-26")
      ∷ []
      ∷ txt
          "The cash book and the bank together: opening cash and bank, everything received and paid by account (things bought included), closing cash and bank. Money moved between own cash, gollak and bank is neither a receipt nor a payment and is left out; a cost paid from a fund is a payment of the cost."
      ∷ []
      ∷ [])
    ++ table (txt "Receipts" ∷ txt "₹" ∷ txt "Payments" ∷ txt "₹" ∷ []) (l ∷ r ∷ l ∷ r ∷ []) (
        side_by_side left right
        ++ ((bold (txt "Total")
              ∷ bold (fmt (item_total left))
              ∷ bold (txt "Total")
              ∷ bold (fmt (item_total right))
              ∷ [])
            ∷ []))
    ++ ([] ∷ [])

-- `sec_npo_rp(b, num)`
unfoldable pub sec_npo_rp : Book → ℕ → Result Page
sec_npo_rp b num = do
  s ← flows_of b.accounts b.vouchers no_flows
  guard (eqb_ℤ (item_total (left_items b.accounts s)) (item_total (right_items b.accounts s)))
      rp_differs
  ok (rp_page b num s)
