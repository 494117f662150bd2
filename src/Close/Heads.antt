-- ===== src/Close/Heads.antt =====
-- A book with no partners closes: no assertion of `close_entries` or `post_close_balances` fails,
-- and every head stands at nil.
use rukka_folio.Prelude.{
  ◌≡◌, refl, ◌∙◌, List, [], ◌∷◌, ℤ, pos, neg, ◌+ℤ◌, zero-+ℤ, +ℤ_assoc, ap, int_laws, sum_by,
  sum_by-append, map, Text,
}
use rukka_folio.Kinds.{Kind, income, expense, drawings, shareout}
use rukka_folio.Fault.{Result, ok, ◌>>=◌, >>=-eq-ok}
use rukka_folio.Book.{Account, Book, Line}
use rukka_folio.Close.{
  CloseEntry, open_heads, close_heads, close_own, income_lines, expense_lines, own_lines, result_of,
}
use rukka_folio.Close.Effect.{amount_on, entries_on}
use rukka_folio.Close.Lines.{
  lines_sum, add_close-entries_on, add_close_returns, add_close-then, add_close-amounts,
}

lines_sum-map :
    (f : Account → ℤ) (accounts : List Account)
    → lines_sum (map (λ a. (a.name, f a)) accounts) ≡ sum_by f accounts
lines_sum-map f [] = refl
lines_sum-map f (a ∷ rest) = rw (lines_sum-map f rest)

sum-neg :
    (f : Account → ℤ) (accounts : List Account)
    → sum_by (λ a. neg (f a)) accounts ≡ neg (sum_by f accounts)
sum-neg f [] = omega int_laws
sum-neg f (a ∷ rest) = rw (sum-neg f rest) (omega int_laws)

pub income_lines-sum :
    (res : Text) (accounts : List Account) → lines_sum (income_lines res accounts) ≡ pos 0
income_lines-sum res accounts =
    rw
      (
        sum_by-append (λ (l : Line). l.1)
            (map (λ a. (a.name, neg a.closing)) (open_heads income accounts)),
        lines_sum-map (λ a. neg a.closing) (open_heads income accounts),
      )
      (omega int_laws)

-- A head's name on one side of an entry, the other account on the other.
pub debit_lines-sum :
    (n : Text) (k : Kind) (accounts : List Account)
    → lines_sum (
        (n, sum_by (λ a. a.closing) (open_heads k accounts))
        ∷ map (λ a. (a.name, neg a.closing)) (open_heads k accounts))
      ≡ pos 0
debit_lines-sum n k accounts =
    rw
      (
        lines_sum-map (λ a. neg a.closing) (open_heads k accounts),
        sum-neg (λ a. a.closing) (open_heads k accounts),
      )
      (omega int_laws)

module _ (b : Book) (res own : Text) where
  -- The result, to own money.
  abbrev pub result_lines : List Line
  result_lines = (res, result_of b.accounts) ∷ (own, neg (result_of b.accounts)) ∷ []

  result_lines-sum : lines_sum result_lines ≡ pos 0
  result_lines-sum = omega int_laws

  abbrev pub close_all : Result (List CloseEntry)
  close_all = close_heads b.prefix res b.accounts >>= λ out. close_own b res own out

  close_heads_returns : (es : List CloseEntry) × (close_heads b.prefix res b.accounts ≡ ok es)
  unfolding close_heads
  close_heads_returns =
      add_close-then b.prefix _ (income_lines res b.accounts) [] _ (income_lines-sum res b.accounts)
        λ next.
          add_close_returns b.prefix _ (expense_lines res b.accounts) next
            (debit_lines-sum res expense b.accounts)

  close_own_returns :
      (out : List CloseEntry) → (es : List CloseEntry) × (close_own b res own out ≡ ok es)
  unfolding close_own
  close_own_returns out = add_close-then b.prefix _ result_lines out _ result_lines-sum λ one.
      add_close-then b.prefix _ (own_lines own drawings b.accounts) one _
        (debit_lines-sum own drawings b.accounts)
        λ two.
          add_close_returns b.prefix _ (own_lines own shareout b.accounts) two
            (debit_lines-sum own shareout b.accounts)

  pub close_all_returns : (es : List CloseEntry) × (close_all ≡ ok es)
  close_all_returns =
      let (out, p) = close_heads_returns in let (es, q) = close_own_returns out in (es, rw p q)

  -- What the close adds to a name's balance.
  abbrev pub total_on : Text → ℤ
  total_on n =
      amount_on n (income_lines res b.accounts)
      +ℤ amount_on n (expense_lines res b.accounts)
      +ℤ (amount_on n result_lines
          +ℤ (amount_on n (own_lines own drawings b.accounts)
              +ℤ amount_on n (own_lines own shareout b.accounts)))

  close_heads-amounts :
      (n : Text) (out : List CloseEntry)
      → close_heads b.prefix res b.accounts ≡ ok out
      → entries_on n out
        ≡ amount_on n (income_lines res b.accounts) +ℤ amount_on n (expense_lines res b.accounts)
  unfolding close_heads
  close_heads-amounts n out h =
      add_close-amounts n b.prefix _ (income_lines res b.accounts) [] out _ _
        (λ next k. add_close-entries_on n b.prefix _ (expense_lines res b.accounts) next out k) h
      ∙ ap (λ x. x +ℤ amount_on n (expense_lines res b.accounts)) (zero-+ℤ _)

  close_own-amounts :
      (n : Text) (out es : List CloseEntry)
      → close_own b res own out ≡ ok es
      → entries_on n es
        ≡ entries_on n out
          +ℤ (amount_on n result_lines
              +ℤ (amount_on n (own_lines own drawings b.accounts)
                  +ℤ amount_on n (own_lines own shareout b.accounts)))
  unfolding close_own
  close_own-amounts n out es h =
      add_close-amounts n b.prefix _ result_lines out es _ _
        (λ one k.
          add_close-amounts n b.prefix _ (own_lines own drawings b.accounts) one es _ _
            (λ two j.
              add_close-entries_on n b.prefix _ (own_lines own shareout b.accounts) two es j)
            k
          ∙ +ℤ_assoc _ _ _)
        h
      ∙ +ℤ_assoc _ _ _

  pub close_all-amounts :
      (n : Text) (es : List CloseEntry) → close_all ≡ ok es → entries_on n es ≡ total_on n
  close_all-amounts n es h =
      let (out, p, q) = >>=-eq-ok (close_heads b.prefix res b.accounts) (close_own b res own) h in
      rw (close_own-amounts n out es q, close_heads-amounts n out p)
