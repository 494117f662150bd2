-- ===== src/Close/Balances.antt =====
-- `post_close_balances`: every account's balance after the year close.
use rukka_folio.Prelude.{
  Bool, true, false, List, [], ◌∷◌, if◌then◌else◌, ℤ, pos, ◌+ℤ◌, is_nil, every, Text, same, map,
}
use rukka_folio.Kinds.{drawings, shareout, income, expense, in_kinds}
use rukka_folio.Fault.{Result, ok, ◌>>=◌, ◌>>◌, guard, result_not_closed, head_not_closed}
use rukka_folio.Book.{Account, Book, Line}
use rukka_folio.Close.{CloseEntry, close_entries}

-- A dictionary from names to balances.
abbrev pub Balances : Type 0
Balances = List Line

unfoldable pub has_name : Text → Balances → Bool
has_name n [] = false
has_name n ((m, x) ∷ bal) = if same m n then true else has_name n bal

-- `bal.get(n, 0)`
unfoldable pub balance_of : Text → Balances → ℤ
balance_of n [] = pos 0
balance_of n ((m, x) ∷ bal) = if same m n then x else balance_of n bal

-- `bal[n] = bal.get(n, 0) + a`
unfoldable pub add_to : Text → ℤ → Balances → Balances
add_to n a [] = (n, a) ∷ []
add_to n a ((m, x) ∷ bal) = if same m n then (m, x +ℤ a) ∷ bal else (m, x) ∷ add_to n a bal

-- A line goes to its account, or to the result accounts that are not in the book.
unfoldable pub settle_line : Line → Balances × Balances → Balances × Balances
unfolding has_name add_to
settle_line l (bal, pseudo) =
    if has_name l.0 bal then (add_to l.0 l.1 bal, pseudo) else (bal, add_to l.0 l.1 pseudo)

unfoldable pub settle_lines : List Line → Balances × Balances → Balances × Balances
unfolding settle_line
settle_lines [] s = s
settle_lines (l ∷ ls) s = settle_lines ls (settle_line l s)

unfoldable pub settle : List CloseEntry → Balances × Balances → Balances × Balances
unfolding settle_lines
settle [] s = s
settle (e ∷ es) s = settle es (settle_lines e.lines s)

abbrev pub closings : List Account → Balances
closings = map (λ a. (a.name, a.closing))

-- The heads that the close brings to nil.
unfoldable pub head_closed : Balances → Account → Bool
unfolding balance_of
head_closed bal a =
    if in_kinds (income ∷ expense ∷ drawings ∷ shareout ∷ []) a.kind
    then is_nil (balance_of a.name bal)
    else true

unfoldable pub post_close_balances : Book → Result Balances
unfolding settle close_entries head_closed
post_close_balances b = do
  es ← close_entries b
  let s = settle es (closings b.accounts, [])
  guard (every (λ l. is_nil l.1) s.1) result_not_closed
  guard (every (head_closed s.0) b.accounts) head_not_closed
  ok s.0
