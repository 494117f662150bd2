-- ===== src/Close/Effect.antt =====
-- What the close entries do to a balance: they add the lines of that name.
use rukka_folio.Prelude.{
  ◌≡◌, refl, sym, true, false, Bool-cases, inl, inr, List, [], ◌∷◌, if◌then◌else◌, ℤ, pos, ◌+ℤ◌,
  +ℤ-zero, zero-+ℤ, int_laws, sum_by, Text, same, same→eq, eq→same, arith, ◌∙◌,
}
use rukka_folio.Book.{Line}
use rukka_folio.Close.{CloseEntry}
use rukka_folio.Close.Balances.{
  Balances, has_name, balance_of, add_to, settle_line, settle_lines, settle,
}

-- The amounts of a list of lines on one name.
abbrev pub amount_on : Text → List Line → ℤ
amount_on n = sum_by (λ l. if same l.0 n then l.1 else pos 0)

abbrev pub entries_on : Text → List CloseEntry → ℤ
entries_on n = sum_by (λ e. amount_on n e.lines)

other_name : (j m n : Text) → same j m ≡ false → same j n ≡ true → same m n ≡ false
other_name j m n h k = ground (arith, same→eq j n, same→eq m n, eq→same j m)

pub balance_of-add_to :
    (n m : Text) (a : ℤ) (bal : Balances)
    → balance_of n (add_to m a bal) ≡ balance_of n bal +ℤ (if same m n then a else pos 0)
unfolding balance_of add_to
balance_of-add_to n m a [] = ground (arith, zero-+ℤ a, zero-+ℤ (pos 0))
balance_of-add_to n m a ((j, x) ∷ bal) = elim (Bool-cases (same j m)) [
  | inl e ↦ rw e (elim (Bool-cases (same m n)) [
    | inl k ↦ rw (same→eq j m e, k)
    | inr k ↦ rw (same→eq j m e, k) (sym (+ℤ-zero _))
  ])
  | inr e ↦ rw e (elim (Bool-cases (same j n)) [
    | inl k ↦ rw (k, other_name j m n e k) (sym (+ℤ-zero x))
    | inr k ↦ rw k (balance_of-add_to n m a bal)
  ])
]

pub has_name-add_to :
    (n m : Text) (a : ℤ) (bal : Balances)
    → has_name m bal ≡ true
    → has_name n (add_to m a bal) ≡ has_name n bal
unfolding has_name add_to
has_name-add_to n m a [] h = cc
has_name-add_to n m a ((j, x) ∷ bal) h = ground (arith, has_name-add_to n m a bal)

-- The balance of a name, in the book or among the result accounts.
abbrev pub find_balance : Text → Balances × Balances → ℤ
find_balance n (bal, pseudo) = if has_name n bal then balance_of n bal else balance_of n pseudo

has_name-settle_line :
    (n : Text) (l : Line) (bal pseudo : Balances)
    → has_name n (settle_line l (bal, pseudo)).0 ≡ has_name n bal
unfolding settle_line
has_name-settle_line n (m, a) bal pseudo = ground (arith, has_name-add_to n m a bal)

find_balance-settle_line :
    (n : Text) (l : Line) (bal pseudo : Balances)
    → find_balance n (settle_line l (bal, pseudo))
      ≡ find_balance n (bal, pseudo) +ℤ (if same l.0 n then l.1 else pos 0)
unfolding settle_line
find_balance-settle_line n (m, a) bal pseudo = ground (
  arith,
  has_name-add_to n m a bal,
  balance_of-add_to n m a bal,
  balance_of-add_to n m a pseudo,
  same→eq m n,
  +ℤ-zero (balance_of n bal),
  +ℤ-zero (balance_of n pseudo),
)

settle_lines_effect :
    (n : Text) (ls : List Line) (bal pseudo : Balances)
    → (find_balance n (settle_lines ls (bal, pseudo))
        ≡ find_balance n (bal, pseudo) +ℤ amount_on n ls)
      × (has_name n (settle_lines ls (bal, pseudo)).0 ≡ has_name n bal)
unfolding settle_lines
settle_lines_effect n [] bal pseudo = (omega int_laws, refl)
settle_lines_effect n (l ∷ ls) bal pseudo =
    let (bal', pseudo') = settle_line l (bal, pseudo) in
    let (x, y) = settle_lines_effect n ls bal' pseudo' in
    (
      rw (x, find_balance-settle_line n l bal pseudo) (omega int_laws),
      y ∙ has_name-settle_line n l bal pseudo,
    )

-- After the close a balance is what it was, with the entries' lines of its name added.
pub settle_effect :
    (n : Text) (es : List CloseEntry) (bal pseudo : Balances)
    → (find_balance n (settle es (bal, pseudo)) ≡ find_balance n (bal, pseudo) +ℤ entries_on n es)
      × (has_name n (settle es (bal, pseudo)).0 ≡ has_name n bal)
unfolding settle
settle_effect n [] bal pseudo = (omega int_laws, refl)
settle_effect n (e ∷ es) bal pseudo =
    let (bal', pseudo') = settle_lines e.lines (bal, pseudo) in
    let (x, y) = settle_effect n es bal' pseudo' in
    let (u, v) = settle_lines_effect n e.lines bal pseudo in (rw (x, u) (omega int_laws), y ∙ v)
