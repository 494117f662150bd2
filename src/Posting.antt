-- ===== src/Posting.antt =====
-- `Book.finalize`, `post` and `validate_balances` of docs/accounting/reference-books/build.py. The
-- sort is Python's stable sort by (date, seq).
pub mod Known
pub mod Ledger
pub mod Balance
pub mod Order
pub mod Parts
use rukka_folio.Prelude.{
  is_nil, eqb_ℤ, leb_ℤ, every, some_of, ℕ, zero, suc, ◌+◌, Bool, true, false, not, ◌&&◌, ◌||◌, List,
  [], ◌∷◌, ◌++◌, ltb, leb, ◌==◌, if◌then◌else◌, ℤ, pos, neg, ◌+ℤ◌, sum_by, is_pos, is_neg, dr_of,
  cr_of, length, drop, keep, Text, txt, same, join, starts_with, str_of, pad3, map, Option, none,
  some,
}
use rukka_folio.Dates.{branch_open, Date, fdate}
use rukka_folio.Kinds.{
  cash, card, advance, invest, gollak, deppaid, loanto, retention, pcapital, is_kind, nonneg_money,
  Kind, fund, income, expense, fixed, in_kinds, is_money_kind,
}
use rukka_folio.Fault.{
  Fault, guard, trial_balance, openings_unbalanced, branch_shut, negative_opening, money_negative,
  card_overpaid, over_settled, fixed_capital_moved, no_cash_account, entry_count, ◌>>◌, Result, ok,
  err, ◌>>=◌, or_key_error,
}
use rukka_folio.Book.{Account, Voucher, Line, Row, Book, change, find_account}
use rukka_folio.Entry.{validate_vouchers, kind_passes, money_line, line_of_kind}

-- `(x.date, x.seq) <= (y.date, y.seq)`
unfoldable pub not_after : Voucher → Voucher → Bool
not_after x y = ltb x.date y.date || ((x.date == y.date) && leb x.seq y.seq)

unfoldable pub insert_sorted : Voucher → List Voucher → List Voucher
unfolding not_after
insert_sorted x [] = x ∷ []
insert_sorted x (y ∷ ys) = if not_after x y then x ∷ y ∷ ys else y ∷ insert_sorted x ys

unfoldable pub sort_vouchers : List Voucher → List Voucher
unfolding insert_sorted
sort_vouchers [] = []
sort_vouchers (x ∷ xs) = insert_sorted x (sort_vouchers xs)

-- `enumerate(self.vouchers, i)`: the entry numbers.
unfoldable pub number_from : Text → ℕ → List Voucher → List Voucher
unfolding pad3 txt
number_from prefix i [] = []
number_from prefix i (w ∷ ws) =
    record w { vid = prefix ++ (txt "-" ++ pad3 i) } ∷ number_from prefix (i + 1) ws

unfoldable pub find_seq : ℕ → List Voucher → Option Voucher
find_seq s [] = none
find_seq s (w ∷ ws) = if w.seq == s then some w else find_seq s ws

-- `text.replace(needle, by)`; the length of `text` is fuel enough.
unfoldable pub replace_on : ℕ → Text → Text → Text → Text
replace_on zero needle by text = text
replace_on (suc fuel) needle by [] = []
replace_on (suc fuel) needle by (c ∷ text) =
    let found = replace_on fuel needle by (drop (length needle) (c ∷ text)) in
    let missed = replace_on fuel needle by text in
    if starts_with (c ∷ text) needle then by ++ found else c ∷ missed

-- The note of an entry that names an earlier one, and the loop over the entries.
unfoldable pub name_ref : List Voucher → Voucher → Result Voucher
unfolding replace_on find_seq fdate txt
name_ref all w = elim w.ref [
  | none ↦ ok w
  | some s ↦ do
    r ← or_key_error (find_seq s all)
    ok (record w {
      narration =
          replace_on (length w.narration) (txt "{ref}") (r.vid ++ (txt " of " ++ fdate r.date))
            w.narration;
    })
]

unfoldable pub name_refs : List Voucher → List Voucher → Result (List Voucher)
unfolding name_ref
name_refs all [] = ok []
name_refs all (w ∷ ws) = let rest = name_refs all ws in do ok ((← name_ref all w) ∷ (← rest))

-- `(b > 0) != (a > 0)`
abbrev pub other_side : ℤ → ℤ → Bool
other_side a b = if is_pos a then not (is_pos b) else is_pos b

-- The accounts that a posted line names against it.
unfoldable pub others_of : List Account → Voucher → Line → List Line
unfolding kind_passes money_line line_of_kind txt
others_of accounts vch l =
    let others = keep (λ m. other_side l.1 m.1) vch.lines in
    if same vch.vtype (txt "Payment (from a fund)")
    then (if line_of_kind accounts fund l
        then keep (line_of_kind accounts income) others
        else if line_of_kind accounts income l
        then keep (line_of_kind accounts fund) others
        else if kind_passes accounts (in_kinds (expense ∷ fixed ∷ [])) l.0
        then keep (money_line accounts) others
        else keep (λ m. is_pos m.1 && kind_passes accounts (in_kinds (expense ∷ fixed ∷ [])) m.0)
            vch.lines)
    else others

-- The particulars of a row: `To …` or `By …`.
unfoldable pub particulars : List Account → Voucher → Line → Text
unfolding others_of join str_of txt
particulars accounts vch l =
    let others = others_of accounts vch l in
    (if is_pos l.1 then txt "To " else txt "By ")
    ++ (if leb (length others) 3
        then join (txt " / ") (map (λ m. m.0) others)
        else txt "several accounts (" ++ (str_of (length others) ++ txt ")"))

-- One line on its account: the running balance, and the row.
unfoldable pub post_row : Voucher → Text → ℤ → Account → Account
post_row vch part amt a =
    let bal = a.bal +ℤ amt in
    record a {
      bal = bal;
      rows =
          a.rows
          ++ (record {
            date = vch.date;
            vid = vch.vid;
            vch = vch;
            part = part;
            dr = dr_of amt;
            cr = cr_of amt;
            bal = bal;
          }
              ∷ []);
    }

unfoldable pub post_lines : Voucher → List Line → List Account → Result (List Account)
unfolding post_row particulars change
post_lines vch [] accounts = ok accounts
post_lines vch (l ∷ ls) accounts = do
  accounts' ← change l.0 (post_row vch (particulars accounts vch l) l.1) accounts
  post_lines vch ls accounts'

unfoldable pub post_vouchers : List Voucher → List Account → Result (List Account)
unfolding post_lines
post_vouchers [] accounts = ok accounts
post_vouchers (w ∷ ws) accounts = do
  accounts' ← post_lines w w.lines accounts
  post_vouchers ws accounts'

abbrev pub reset : Account → Account
reset a = record a { rows = []; bal = a.opening }

abbrev pub close_off : Account → Account
close_off a = record a { closing = a.bal }

unfoldable pub post : Book → Result Book
unfolding post_vouchers
post b = do
  accounts ← post_vouchers b.vouchers (map reset b.accounts)
  ok (record b { accounts = map close_off accounts })

-- The loop over the accounts in `validate_balances`.
unfoldable pub check_rows : (Row → Bool) → Fault → Account → Result (Unit {0})
check_rows p e a = guard (every p a.rows) e

unfoldable pub check_account : Account → Result (Unit {0})
unfolding check_rows
check_account a = do
  if in_kinds nonneg_money a.kind
      then (guard (leb_ℤ (pos 0) a.opening) negative_opening
          >> check_rows (λ r. leb_ℤ (pos 0) r.bal) money_negative a)
      else ok tt
  if is_kind a.kind card then check_rows (λ r. leb_ℤ r.bal (pos 0)) card_overpaid a else ok tt
  if in_kinds (advance ∷ fixed ∷ invest ∷ gollak ∷ deppaid ∷ loanto ∷ retention ∷ []) a.kind
      then check_rows (λ r. leb_ℤ (pos 0) r.bal) over_settled a
      else ok tt
  if is_kind a.kind pcapital then guard (length a.rows == 0) fixed_capital_moved else ok tt

unfoldable pub check_accounts : List Account → Result (Unit {0})
unfolding check_account
check_accounts [] = ok tt
check_accounts (a ∷ rest) = let more = check_accounts rest in do check_account a; more

-- A cash deposit is only on a day when the branch is open.
unfoldable pub deposit_day_ok : Voucher → Bool
unfolding branch_open starts_with txt
deposit_day_ok w =
    not (starts_with (elim w.stmt [ none ↦ [] | some s ↦ s ]) (txt "CASH DEP"))
    || branch_open w.date

abbrev pub dr_total : List Account → ℤ
dr_total = sum_by (λ a. dr_of a.closing)

abbrev pub cr_total : List Account → ℤ
cr_total = sum_by (λ a. cr_of a.closing)

abbrev pub opening_total : List Account → ℤ
opening_total = sum_by (λ a. a.opening)

unfoldable pub validate_balances : Book → Result (Unit {0})
unfolding check_accounts deposit_day_ok
validate_balances b = do
  guard (eqb_ℤ (dr_total b.accounts) (cr_total b.accounts)) trial_balance
  guard (is_nil (opening_total b.accounts)) openings_unbalanced
  guard (every deposit_day_ok b.vouchers) branch_shut
  check_accounts b.accounts
  guard (some_of (λ a. is_kind a.kind cash) b.accounts) no_cash_account
  guard (leb b.min_count (length b.vouchers) && leb (length b.vouchers) b.max_count) entry_count

unfoldable pub finalize : Book → Result Book
unfolding sort_vouchers number_from name_refs validate_vouchers post validate_balances
finalize b = do
  let numbered = number_from b.prefix 1 (sort_vouchers b.vouchers)
  vouchers ← name_refs numbered numbered
  validate_vouchers b.accounts vouchers
  posted ← post (record b { vouchers = vouchers })
  validate_balances posted
  ok posted
