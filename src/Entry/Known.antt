-- ===== src/Entry/Known.antt =====
-- What a validated entry is, whatever its type: it has two lines or more on different accounts of
-- the book, no line is nil, they add up to nothing, and its type is in the table.
use rukka_folio.Prelude.{
  ◌≢◌, ◌≤◌, ◌≡◌, true, not, List, [], ◌∷◌, leb→le, ℤ, pos, is_nil, sum_by, length, All, arith, mem,
}
use rukka_folio.Vtypes.{vtypes}
use rukka_folio.Fault.{ok, >>=-eq-ok, guard->>-eq-ok}
use rukka_folio.Book.{Account, Voucher, Line, has_account}
use rukka_folio.Entry.{distinct, names_of, check_lines, validate_voucher, validate_vouchers}

abbrev pub IsKnown : List Account → Line → Type 0
IsKnown accounts l = (has_account l.0 accounts ≡ true) × (l.1 ≢ pos 0)

pub record IsEntry (accounts : List Account) (w : Voucher) : Type 0 where
  pub two_lines : 2 ≤ length w.lines
  pub balanced : sum_by (λ l. l.1) w.lines ≡ pos 0
  pub once : distinct (names_of w.lines) ≡ true
  pub known : All (IsKnown accounts) w.lines
  pub typed : mem w.vtype vtypes ≡ true

pub is_nil→eq : (a : ℤ) → is_nil a ≡ true → a ≡ pos 0
is_nil→eq a h = ground arith

not-is_nil→ne : (a : ℤ) → not (is_nil a) ≡ true → a ≢ pos 0
not-is_nil→ne a h = ground arith

check_lines-IsKnown :
    (accounts : List Account) (ls : List Line)
    → check_lines accounts ls ≡ ok tt
    → All (IsKnown accounts) ls
unfolding check_lines
check_lines-IsKnown accounts [] h = tt
check_lines-IsKnown accounts (l ∷ ls) h =
    let (k, h1) = guard->>-eq-ok _ _ _ h in
    let (z, h2) = guard->>-eq-ok _ _ _ h1 in
    ((k, not-is_nil→ne l.1 z), check_lines-IsKnown accounts ls h2)

pub validate_voucher-IsEntry :
    (accounts : List Account) (w : Voucher)
    → validate_voucher accounts w ≡ ok tt
    → IsEntry accounts w
unfolding validate_voucher
validate_voucher-IsEntry accounts w h =
    let (two, h1) = guard->>-eq-ok _ _ _ h in
    let (nil, h2) = guard->>-eq-ok _ _ _ h1 in
    let (one, h3) = guard->>-eq-ok _ _ _ h2 in
    let (u, lines, h4) = >>=-eq-ok _ _ h3 in
    record {
      two_lines = leb→le _ _ two;
      balanced = is_nil→eq _ nil;
      once = one;
      known = check_lines-IsKnown accounts w.lines lines;
      typed = (guard->>-eq-ok _ _ _ h4).0;
    }

pub validate_vouchers-IsEntry :
    (accounts : List Account) (ws : List Voucher)
    → validate_vouchers accounts ws ≡ ok tt
    → All (IsEntry accounts) ws
unfolding validate_vouchers
validate_vouchers-IsEntry accounts [] h = tt
validate_vouchers-IsEntry accounts (w ∷ ws) h =
    let (u, first, more) = >>=-eq-ok _ _ h in
    (validate_voucher-IsEntry accounts w first, validate_vouchers-IsEntry accounts ws more)
