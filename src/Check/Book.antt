-- ===== src/Check/Book.antt =====
-- `class Book` of docs/accounting/reference-books/check_md.py: the book that the checker derives from
-- the printed pages, and its queries. The dictionaries by account name (`type`, `opening`, `post`,
-- `closing`) are one list of accounts, in the chart's order; a name that is not there raises.
pub mod Swapped
pub mod Refined
pub mod Agrees
pub mod MakeUp
use rukka_folio.Prelude.{
  Bool, ◌&&◌, List, [], ◌∷◌, ◌++◌, leb, if◌then◌else◌, ℤ, pos, neg, ◌+ℤ◌, sum_by, is_pos, is_neg,
  keep, map, Text, txt, same, mem,
}
use rukka_folio.Dates.{Date}
use rukka_folio.Fault.{Result, ok, err, ◌>>=◌, key_error}
use rukka_folio.Book.{Line}

-- An element of `bk.post[n]`.
pub record Posted : Type 0 where
  pub date : Date
  pub vid : Text
  pub amount : ℤ

-- An element of `bk.vouchers`.
pub record Read : Type 0 where
  pub date : Date
  pub vid : Text
  pub vtype : Text
  pub lines : List Line
  pub amount : ℤ
  pub narr : Text

-- An account of the chart.
pub record Head : Type 0 where
  pub name : Text
  pub word : Text
  pub opening : ℤ
  pub posts : List Posted
  pub closing : ℤ

-- `bk.post[n].append(p)`
unfoldable pub append_post : Text → Posted → List Head → Result (List Head)
append_post n p [] = err key_error
append_post n p (h ∷ rest) =
    let more = append_post n p rest in
    if same h.name n
    then ok (record h { posts = h.posts ++ (p ∷ []) } ∷ rest)
    else do ok (h ∷ (← more))

unfoldable pub take_lines : Read → List Line → List Head → Result (List Head)
unfolding append_post
take_lines w [] heads = ok heads
take_lines w (l ∷ ls) heads = do
  heads' ← append_post l.0 (record { date = w.date; vid = w.vid; amount = l.1 }) heads
  take_lines w ls heads'

unfoldable pub take_entries : List Read → List Head → Result (List Head)
unfolding take_lines
take_entries [] heads = ok heads
take_entries (w ∷ ws) heads = do heads' ← take_lines w w.lines heads; take_entries ws heads'

abbrev pub total_of : List Posted → ℤ
total_of = sum_by (λ p. p.amount)

-- `bk.closing`
unfoldable pub with_closing : Head → Head
with_closing h = record h { closing = h.opening +ℤ total_of h.posts }

-- `bk.post`, filled from the entries, and `bk.closing`.
unfoldable pub fill : List Read → List Head → Result (List Head)
unfolding take_entries with_closing
fill entries heads = do ok (map with_closing (← take_entries entries heads))

-- `d[name]`
unfoldable pub head_of : Text → List Head → Result Head
head_of n [] = err key_error
head_of n (h ∷ rest) = let more = head_of n rest in if same h.name n then ok h else more

unfoldable pub bal_on : Date → Head → ℤ
bal_on date h = h.opening +ℤ total_of (keep (λ p. leb p.date date) h.posts)

-- `bal_at(bk, name, date)`
unfoldable pub bal_at : List Head → Text → Date → Result ℤ
unfolding head_of bal_on
bal_at heads name date = do ok (bal_on date (← head_of name heads))

abbrev pub in_days : Date → Date → Posted → Bool
in_days s e p = leb s p.date && leb p.date e

unfoldable pub mov_on : Date → Date → Head → ℤ × ℤ
mov_on s e h = (
  total_of (keep (λ p. in_days s e p && is_pos p.amount) h.posts),
  neg (total_of (keep (λ p. in_days s e p && is_neg p.amount) h.posts)),
)

-- `mov(bk, name, s, e)`
unfoldable pub mov : List Head → Text → Date → Date → Result (ℤ × ℤ)
unfolding head_of mov_on
mov heads name s e = do ok (mov_on s e (← head_of name heads))

-- `EQUITY`
unfoldable pub equity_words : List Text
unfolding txt
equity_words =
    txt "Own money"
    ∷ txt "Drawings"
    ∷ txt "Share-out"
    ∷ txt "Partner"
    ∷ txt "Owner"
    ∷ txt "Partner's capital"
    ∷ txt "Partner's current"
    ∷ txt "Sub-family"
    ∷ txt "Joint family"
    ∷ []

abbrev pub is_equity_word : Text → Bool
is_equity_word w = mem w equity_words

abbrev pub given_to : Date → Posted → Bool
given_to date p = leb p.date date && is_neg p.amount

abbrev pub taken_by : Date → Posted → Bool
taken_by date p = leb p.date date && is_pos p.amount

-- `equity_parts(bk, date)`: own money at the start, put in, and taken out.
unfoldable pub equity_parts_on : List Head → Date → ℤ × ℤ × ℤ
unfolding equity_words mem
equity_parts_on heads date =
    let eq = keep (λ h. is_equity_word h.word) heads in
    (
      neg (sum_by (λ h. h.opening) eq),
      sum_by (λ h. sum_by (λ p. neg p.amount) (keep (given_to date) h.posts)) eq,
      sum_by (λ h. total_of (keep (taken_by date) h.posts)) eq,
    )

-- `result_to(bk, date)`: income and expense.
unfoldable pub result_on : List Head → Date → ℤ × ℤ
unfolding bal_on same txt
result_on heads date = (
  sum_by (λ h. neg (bal_on date h)) (keep (λ h. same h.word (txt "Income")) heads),
  sum_by (λ h. bal_on date h) (keep (λ h. same h.word (txt "Expense")) heads),
)
