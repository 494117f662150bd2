-- ===== src/Report/EntryKinds/Table.antt =====
-- Every type of entry that is accepted has a kind in the table.
use rukka_folio.Prelude.{
  ◌∙◌, ◌≡◌, refl, sym, ap, Bool, true, false, ◌||◌, and-left, and-right, Bool-cases, inl, inr, List,
  [], ◌∷◌, if◌then◌else◌, map, every, mem, same, same→eq, Text, txt, All, Option, some,
}
use rukka_folio.Vtypes.{vtypes}
use rukka_folio.Fault.{Result, ok, ◌>>=◌, or_key_error}
use rukka_folio.Book.{Account, Book, Line, Voucher, find_account, has_account}
use rukka_folio.Entry.{validate_vouchers}
use rukka_folio.Entry.Known.{IsKnown, IsEntry, validate_vouchers-IsEntry}
use rukka_folio.Report.EntryKinds.{entry_words, line_keys, voucher_keys, book_keys, seen_keys}

abbrev FindsKeys : Result (List Text) → Type 0
FindsKeys r = (keys : List Text) × (r ≡ ok keys)

FindsKeys->>= :
    {X : Type 0} (first : Result X) (next : X → Result (List Text)) (x : X)
    → first ≡ ok x
    → FindsKeys (next x)
    → FindsKeys (first >>= next)
FindsKeys->>= first next x e (keys, q) = (keys, rw e q)

mem-every :
    (p : Text → Bool) (v : Text) (ts : List Text) → mem v ts ≡ true → every p ts ≡ true → p v ≡ true
unfolding mem
mem-every p v [] h k = cc
mem-every p v (t ∷ ts) h k = elim (Bool-cases (same t v)) [
  | inl e ↦ ap p (sym (same→eq t v e)) ∙ and-left (p t) _ k
  | inr e ↦ mem-every p v ts (rw e at h) (and-right (p t) _ k)
]

abbrev in_table : Text → Bool
in_table v = mem v (map (λ (e : Text × Option Text). e.0) entry_words)

table-all : every in_table vtypes ≡ true
unfolding entry_words vtypes mem txt same
table-all = refl

found_account :
    (n : Text) (accounts : List Account)
    → has_account n accounts ≡ true
    → (a : Account) × (find_account n accounts ≡ some a)
unfolding has_account find_account
found_account n [] h = cc
found_account n (a ∷ rest) h = elim (Bool-cases (same a.name n)) [
  | inl e ↦ (a, rw e refl)
  | inr e ↦ let (c, q) = found_account n rest (rw e at h) in (c, rw e q)
]

line_keys_returns :
    (accounts : List Account) (ls : List Line)
    → All (IsKnown accounts) ls
    → FindsKeys (line_keys accounts ls)
unfolding line_keys
line_keys_returns accounts [] h = ([], refl)
line_keys_returns accounts (x ∷ xs) h =
    let (a, e) = found_account x.0 accounts h.0.0 in
    let (more, q) = line_keys_returns accounts xs h.1 in
    FindsKeys->>= _ _ a (ap or_key_error e) (FindsKeys->>= _ _ more q (_, refl))

if-FindsKeys :
    (c : Bool) (accounts : List Account) (ls : List Line)
    → All (IsKnown accounts) ls
    → FindsKeys (if c then line_keys accounts ls else ok [])
if-FindsKeys true accounts ls h = line_keys_returns accounts ls h
if-FindsKeys false accounts ls h = ([], refl)

voucher_keys_returns :
    (accounts : List Account) (w : Voucher)
    → IsEntry accounts w
    → FindsKeys (voucher_keys accounts w)
unfolding voucher_keys
voucher_keys_returns accounts w h =
    let money = same w.vtype (txt "Receipt") || same w.vtype (txt "Payment") in
    let (keys, q) = if-FindsKeys money accounts w.lines h.known in
    let passes = mem-every in_table w.vtype vtypes h.typed table-all in
    (w.vtype ∷ keys, rw (q, passes) refl)

book_keys_returns :
    (accounts : List Account) (ws : List Voucher)
    → All (IsEntry accounts) ws
    → FindsKeys (book_keys accounts ws)
unfolding book_keys
book_keys_returns accounts [] h = ([], refl)
book_keys_returns accounts (w ∷ ws) h =
    let (keys, q) = voucher_keys_returns accounts w h.0 in
    let (more, k) = book_keys_returns accounts ws h.1 in
    FindsKeys->>= _ _ keys q (FindsKeys->>= _ _ more k (_, refl))

-- When the entries of every book of a case have passed `validate_vouchers`, `entry_kinds` finds each
-- entry's type in its table, and each line's account in the book: its assertion never fails.
pub seen_keys_returns :
    (books : List Book)
    → All (λ b. validate_vouchers b.accounts b.vouchers ≡ ok tt) books
    → (seen : List Text) × (seen_keys books ≡ ok seen)
unfolding seen_keys
seen_keys_returns [] h = ([], refl)
seen_keys_returns (b ∷ bs) h =
    let entries = validate_vouchers-IsEntry b.accounts b.vouchers h.0 in
    let (keys, q) = book_keys_returns b.accounts b.vouchers entries in
    let (more, k) = seen_keys_returns bs h.1 in
    FindsKeys->>= _ _ keys q (FindsKeys->>= _ _ more k (_, refl))
