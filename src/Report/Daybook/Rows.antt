-- ===== src/Report/Daybook/Rows.antt =====
-- Every entry has its row in the Day Book.
use rukka_folio.Prelude.{
  ◌≡◌, refl, Bool, Bool-cases, inl, inr, true, false, List, [], ◌∷◌, map, Option, some, get_elem?,
  All, Text, same, mem,
}
use rukka_folio.Kinds.{is_money_kind}
use rukka_folio.Vtypes.{Words, word_of, keys, plain_vtype, vtypes}
use rukka_folio.Fault.{ok, >>=-eq-ok}
use rukka_folio.Book.{Account, Book, Line, Voucher, find_account, has_account}
use rukka_folio.Entry.{validate_voucher, validate_vouchers}
use rukka_folio.Entry.Known.{IsKnown, validate_voucher-IsEntry}
use rukka_folio.Report.Daybook.{any_money, daybook_row, daybook_of, daybook_rows}

word_of-mem :
    (v : Text) (ws : Words) → mem v (keys ws) ≡ true → (w : Text) × (word_of v ws ≡ some w)
unfolding word_of mem keys
word_of-mem v [] h = cc
word_of-mem v ((k, w) ∷ ws) h = elim (Bool-cases (same k v)) [
  | inl e ↦ (w, rw e)
  | inr e ↦ rw e (word_of-mem v ws (rw e at h))
]

find-has_account :
    (n : Text) (accounts : List Account)
    → has_account n accounts ≡ true
    → (a : Account) × (find_account n accounts ≡ some a)
unfolding find_account has_account
find-has_account n [] h = cc
find-has_account n (a ∷ rest) h = elim (Bool-cases (same a.name n)) [
  | inl e ↦ (a, rw e)
  | inr e ↦ rw e (find-has_account n rest (rw e at h))
]

any_money_returns :
    (accounts : List Account) (ls : List Line)
    → All (IsKnown accounts) ls
    → (m : Bool) × (any_money accounts ls ≡ ok m)
unfolding any_money
any_money_returns accounts [] h = (false, refl)
any_money_returns accounts (x ∷ xs) h =
    let (a, p) = find-has_account x.0 accounts (h.0).0 in
    let (m, q) = any_money_returns accounts xs h.1 in
    elim (Bool-cases (is_money_kind a.kind)) [
      | inl e ↦ (true, rw (p, e))
      | inr e ↦ (m, rw (p, e, q))
    ]

-- The cell under "No.".
abbrev pub number_cell : List Text → Option Text
number_cell row = get_elem? row 1

daybook_of_returns :
    (accounts : List Account) (ws : List Voucher)
    → validate_vouchers accounts ws ≡ ok tt
    → (rows : List (List Text)) × (daybook_of accounts ws ≡ ok rows)
      × (map number_cell rows ≡ map (λ w. some w.vid) ws)
unfolding daybook_of validate_vouchers daybook_row vtypes
daybook_of_returns accounts [] h = ([], refl, refl)
daybook_of_returns accounts (w ∷ ws) h =
    let (u, passed, more) = >>=-eq-ok (validate_voucher accounts w) _ h in
    let entry = validate_voucher-IsEntry accounts w passed in
    let (moved, p) = any_money_returns accounts w.lines entry.known in
    let (word, q) = word_of-mem w.vtype plain_vtype entry.typed in
    let (rows, r, numbers) = daybook_of_returns accounts ws more in
    (daybook_row w word moved ∷ rows, rw (p, q, r), rw numbers)

-- When the entries of a book pass `validate_vouchers`, `daybook_rows` returns one row for each entry,
-- in the book's order and with the entry's number.
pub daybook_rows-numbers :
    (b : Book)
    → validate_vouchers b.accounts b.vouchers ≡ ok tt
    → (rows : List (List Text)) × (daybook_rows b ≡ ok rows)
      × (map number_cell rows ≡ map (λ w. some w.vid) b.vouchers)
unfolding daybook_rows
daybook_rows-numbers b h = daybook_of_returns b.accounts b.vouchers h
