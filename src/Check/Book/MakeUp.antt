-- ===== src/Check/Book/MakeUp.antt =====
-- The make-up of the own money, and the result: the checker's, on the accounts that a reader sees, are
-- the book's.
use rukka_folio.Prelude.{
  ◌≡◌, refl, sym, ◌∙◌, ap, ◌≤◌, Bool, List, [], ◌∷◌, ℤ, neg, sum_by, keep, map, same, All,
  Bool-cases, inl, inr, leb, txt,
}
use rukka_folio.Dates.{Date, fy_start}
use rukka_folio.Kinds.{is_kind, is_equity_kind, income, expense}
use rukka_folio.Fault.{ok}
use rukka_folio.Book.{Account, Book}
use rukka_folio.Entry.{validate_vouchers}
use rukka_folio.Book.Changed.{ok-injective}
use rukka_folio.Posting.{post, reset}
use rukka_folio.Posting.Ledger.{All-All}
use rukka_folio.Queries.{balance_on, movement_on, equity_parts, result_to}
use rukka_folio.Report.Position.MakeUp.{within-From, From, post-From}
use rukka_folio.Check.Book.{
  fill, Head, total_of, bal_on, is_equity_word, given_to, taken_by, equity_parts_on, result_on,
}
use rukka_folio.Check.Book.Agrees.{Sided, post-Sided, bal_on-balance_on, debit_total, credit_total}
use rukka_folio.Check.Book.Refined.{posted_of, head_from, read_of, fill-post}

-- The words of the chart are those of the kinds, as far as the checker reads them.
pub record IsWorded (a : Account) : Type 0 where
  pub equity : is_equity_word a.group ≡ is_equity_kind a.kind
  pub income_word : same a.group (txt "Income") ≡ is_kind a.kind income
  pub expense_word : same a.group (txt "Expense") ≡ is_kind a.kind expense

weaken :
    {P : Account → Type 0}
    → ((a : Account) → IsWorded a → P a)
    → (accounts : List Account) → All IsWorded accounts
    → All P accounts
weaken k [] h = tt
weaken k (a ∷ rest) h = (k a h.0, weaken k rest h.1)

-- The same accounts are kept on both sides, and the same is summed.
sum-kept :
    (p : Head → Bool) (q : Account → Bool) (f : Head → ℤ) (g : Account → ℤ)
    (accounts : List Account)
    → All (λ a. p (head_from a) ≡ q a) accounts
    → All (λ a. f (head_from a) ≡ g a) accounts
    → sum_by f (keep p (map head_from accounts)) ≡ sum_by g (keep q accounts)
sum-kept p q f g [] h k = refl
sum-kept p q f g (a ∷ rest) h k = elim (Bool-cases (q a)) [
  | inl e ↦ rw (h.0, e, k.0, sum-kept p q f g rest h.1 k.1) refl
  | inr e ↦ rw (h.0, e, sum-kept p q f g rest h.1 k.1) refl
]

result_on-result_to :
    (b : Book) (d : Date)
    → All IsWorded b.accounts
    → result_on (map head_from b.accounts) d ≡ result_to b d
unfolding result_on result_to
result_on-result_to b d h =
    rw
      (
        sum-kept (λ x. same x.word (txt "Income")) (λ a. is_kind a.kind income)
            (λ x. neg (bal_on d x)) (λ a. neg (balance_on d a)) b.accounts
            (weaken (λ a w. w.income_word) b.accounts h)
            (All-All _ (λ a. ap neg (bal_on-balance_on d a)) b.accounts),
        sum-kept (λ x. same x.word (txt "Expense")) (λ a. is_kind a.kind expense) (bal_on d)
            (balance_on d) b.accounts (weaken (λ a w. w.expense_word) b.accounts h)
            (All-All _ (bal_on-balance_on d) b.accounts),
      )
      refl

put_in :
    (d : Date) (accounts : List Account)
    → All (λ a. Sided a.rows) accounts
    → All (λ a. From a.rows) accounts
    → All
        (λ a.
          sum_by (λ p. neg p.amount) (keep (given_to d) (map posted_of a.rows))
          ≡ (movement_on fy_start d a).1)
        accounts
unfolding movement_on
put_in d [] h k = tt
put_in d (a ∷ rest) h k =
    (rw (within-From d a.rows k.0) (credit_total (λ x. leb x d) a.rows h.0), put_in d rest h.1 k.1)

taken_out :
    (d : Date) (accounts : List Account)
    → All (λ a. Sided a.rows) accounts
    → All (λ a. From a.rows) accounts
    → All
        (λ a. total_of (keep (taken_by d) (map posted_of a.rows)) ≡ (movement_on fy_start d a).0)
        accounts
unfolding movement_on
taken_out d [] h k = tt
taken_out d (a ∷ rest) h k = (
  rw (within-From d a.rows k.0) (debit_total (λ x. leb x d) a.rows h.0),
  taken_out d rest h.1 k.1,
)

equity_parts_on-equity_parts :
    (b : Book) (d : Date)
    → All IsWorded b.accounts
    → All (λ a. Sided a.rows) b.accounts
    → All (λ a. From a.rows) b.accounts
    → equity_parts_on (map head_from b.accounts) d ≡ equity_parts b d
unfolding equity_parts_on equity_parts
equity_parts_on-equity_parts b d h sided from =
    let words = weaken (λ a w. w.equity) b.accounts h in
    rw
      (
        sum-kept (λ x. is_equity_word x.word) (λ a. is_equity_kind a.kind) (λ x. x.opening)
            (λ a. a.opening) b.accounts words (All-All _ (λ a. refl) b.accounts),
        sum-kept (λ x. is_equity_word x.word) (λ a. is_equity_kind a.kind)
            (λ x. sum_by (λ p. neg p.amount) (keep (given_to d) x.posts))
            (λ a. (movement_on fy_start d a).1) b.accounts words (put_in d b.accounts sided from),
        sum-kept (λ x. is_equity_word x.word) (λ a. is_equity_kind a.kind)
            (λ x. total_of (keep (taken_by d) x.posts)) (λ a. (movement_on fy_start d a).0)
            b.accounts words (taken_out d b.accounts sided from),
      )
      refl

-- For a book that was posted from validated entries dated from the year's first day on, whose accounts
-- stand in the chart with the words of their kinds, the checker's make-up of the own money and its
-- result are the book's, on every day: the own money at the start, what was put in and taken out, the
-- income and the expense.
pub fill-make_up :
    (b b' : Book) (heads : List Head) (d : Date)
    → validate_vouchers b.accounts b.vouchers ≡ ok tt
    → All (λ w. fy_start ≤ w.date) b.vouchers
    → post b ≡ ok b'
    → All IsWorded b'.accounts
    → fill (map read_of b.vouchers) (map head_from (map reset b.accounts)) ≡ ok heads
    → (equity_parts_on heads d ≡ equity_parts b' d) × (result_on heads d ≡ result_to b' d)
fill-make_up b b' heads d valid dates posted worded filled =
    let same_heads = ok-injective (sym filled ∙ fill-post b b' valid posted) in
    rw same_heads (
      equity_parts_on-equity_parts b' d worded (post-Sided b b' posted)
          (post-From b b' dates posted),
      result_on-result_to b' d worded,
    )
