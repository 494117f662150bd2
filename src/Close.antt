-- ===== src/Close.antt =====
-- The year close of docs/accounting/reference-books/build.py, posted by the book itself:
-- `result_name`, `owner_account`, `close_entries`, `close_posts` and `post_close_balances`.
-- `self._close` only caches the entries. A result is `ti - te` over the heads that are not nil, as
-- in the source; a head that is nil adds nothing.
pub mod Balances
pub mod Done
pub mod Effect
pub mod Lines
pub mod Carried
pub mod Nil
pub mod Heads
use rukka_folio.Prelude.{
  ℕ, zero, suc, ◌+◌, ◌-◌, Bool, true, false, not, ◌&&◌, List, [], ◌∷◌, ◌++◌, leb, ◌==◌,
  if◌then◌else◌, ℤ, pos, neg, ◌+ℤ◌, ◌-ℤ◌, sum_by, is_pos, is_nil, leb_ℤ, length, take, keep, every,
  first, Text, txt, same, mem, join, str_of, map, Option, none, some,
}
use rukka_folio.Kinds.{Kind, capital, drawings, shareout, income, expense, is_kind, in_kinds}
use rukka_folio.Fault.{
  Result, ok, err, ◌>>=◌, ◌>>◌, guard, or_key_error, no_profit, close_unbalanced, no_owner,
  result_not_closed, head_not_closed,
}
use rukka_folio.Book.{Account, Partner, Book, Line, Style, business, property, household, npo}
use rukka_folio.Posting.{other_side}
use rukka_folio.Appropriation.{Part, appropriation}

-- An entry of the close: its number, its note and its lines.
pub record CloseEntry : Type 0 where
  pub id : Text
  pub note : Text
  pub lines : List Line

unfoldable pub result_name : Style → Text
unfolding txt
result_name business = txt "Profit & Loss A/c"
result_name property = txt "Profit & Loss A/c"
result_name household = txt "Income & Expenses A/c"
result_name npo = txt "Income & Expenditure A/c"

-- The capital account, or else the owner's account.
unfoldable pub owner_account : List Account → Option Text
unfolding txt
owner_account accounts = elim (first (λ a. is_kind a.kind capital) accounts) [
  | some a ↦ some a.name
  | none ↦ elim (first (λ a. same a.group (txt "Owner")) accounts) [
    | some a ↦ some a.name
    | none ↦ none
  ]
]

-- The accounts of a kind whose closing balance is not nil.
abbrev pub open_heads : Kind → List Account → List Account
open_heads k = keep (λ a. is_kind a.kind k && not (is_nil a.closing))

-- An entry of nil-free lines, numbered after the entries before it.
abbrev pub made : Text → Text → List Line → List CloseEntry → CloseEntry
made prefix note ls out = record {
  id = prefix ++ (txt "-Y" ++ str_of (length out + 1));
  note = note;
  lines = ls;
}

abbrev pub not_nil : List Line → List Line
not_nil = keep (λ l. not (is_nil l.1))

-- The helper `add` of `close_entries`: nil lines are dropped, and an entry with no line is not made.
unfoldable pub add_close : Text → Text → List Line → List CloseEntry → Result (List CloseEntry)
add_close prefix note lines out =
    let ls = not_nil lines in
    if length ls == 0
    then ok out
    else (guard (is_nil (sum_by (λ l. l.1) ls)) close_unbalanced
        >> ok (out ++ (made prefix note ls out ∷ [])))

-- `res[:-4]`
abbrev pub without_ac : Text → Text
without_ac s = take (length s - 4) s

abbrev pub appr_name : Text
appr_name = txt "P&L Appropriation A/c"

abbrev pub credit_heads : List Account → List Line
credit_heads = map (λ a. (a.name, neg a.closing))

abbrev pub debit_heads : List Account → List Line
debit_heads = map (λ a. (a.name, a.closing))

-- `ti`, `te` and the result.
abbrev pub income_total : List Account → ℤ
income_total accounts = sum_by (λ a. neg a.closing) (open_heads income accounts)

abbrev pub expense_total : List Account → ℤ
expense_total accounts = sum_by (λ a. a.closing) (open_heads expense accounts)

abbrev pub result_of : List Account → ℤ
result_of accounts = income_total accounts -ℤ expense_total accounts

-- The income and the expense heads, closed to the result.
abbrev pub income_lines : Text → List Account → List Line
income_lines res accounts =
    credit_heads (open_heads income accounts) ++ ((res, neg (income_total accounts)) ∷ [])

abbrev pub expense_lines : Text → List Account → List Line
expense_lines res accounts =
    (res, expense_total accounts) ∷ map (λ a. (a.name, neg a.closing)) (open_heads expense accounts)

unfoldable pub close_heads : Text → Text → List Account → Result (List CloseEntry)
unfolding add_close txt
close_heads prefix res accounts = do
  one ←
      add_close prefix (txt "Income heads closed to " ++ without_ac res) (income_lines res accounts)
        []
  add_close prefix (txt "Expense heads closed to " ++ without_ac res) (expense_lines res accounts)
      one

-- The entries of a partnership: the appropriation, the interest and the shares.
abbrev pub interest_lines : List Part → List Line
interest_lines parts =
    (appr_name, sum_by (λ r. pos r.interest) parts)
    ∷ map (λ r. (r.partner.current, neg (pos r.interest))) parts

abbrev pub share_lines : List Part → List Line
share_lines parts =
    (appr_name, sum_by (λ r. pos r.share) parts)
    ∷ map (λ r. (r.partner.current, neg (pos r.share))) parts

unfoldable pub close_partners : Book → Text → List CloseEntry → Result (List CloseEntry)
unfolding add_close appropriation txt join str_of
close_partners b res out = do
  let result = result_of b.accounts
  guard (is_pos result) no_profit
  ap ← appropriation b result
  one ←
      add_close b.prefix (txt "Net profit to the P&L Appropriation Account")
        ((res, result) ∷ (appr_name, neg result) ∷ []) out
  two ←
      add_close b.prefix
        (txt
          "Interest on capital, as the partners agreed, to the partners' accounts (out of profit only)")
        (interest_lines ap) one
  add_close b.prefix
      (txt "Share of profit to the partners' accounts ("
        ++ (join (txt " : ") (map (λ p. str_of p.share) b.partners) ++ txt ")"))
      (share_lines ap) two

-- The word of the result's entry, for a profit and for a loss.
unfoldable pub result_words : Style → Text × Text
unfolding txt
result_words business = (txt "Net profit added to own money", txt "Net loss taken from own money")
result_words property = (txt "Net profit added to own money", txt "Net loss taken from own money")
result_words household = (
  txt "Saving for the year added to own money",
  txt "Spent more than came in — taken from own money",
)
result_words npo =
    (txt "Surplus added to the General Fund", txt "Deficit taken from the General Fund")

-- Drawings, or shared-out income, closed to own money.
abbrev pub own_lines : Text → Kind → List Account → List Line
own_lines own k accounts =
    (own, sum_by (λ a. a.closing) (open_heads k accounts))
    ∷ map (λ a. (a.name, neg a.closing)) (open_heads k accounts)

unfoldable pub close_own : Book → Text → Text → List CloseEntry → Result (List CloseEntry)
unfolding add_close result_words txt
close_own b res own out = do
  let result = result_of b.accounts
  let words = result_words b.style
  one ←
      add_close b.prefix (if leb_ℤ (pos 0) result then words.0 else words.1)
        ((res, result) ∷ (own, neg result) ∷ []) out
  two ←
      add_close b.prefix (txt "Drawings closed to own money") (own_lines own drawings b.accounts)
        one
  add_close b.prefix (txt "Business income shared out, closed to own money (not a cost)")
      (own_lines own shareout b.accounts) two

unfoldable pub close_entries : Book → Result (List CloseEntry)
unfolding result_name close_heads close_partners close_own owner_account
close_entries b = do
  let res = result_name b.style
  out ← close_heads b.prefix res b.accounts
  elim b.partners [
    | p ∷ ps ↦ close_partners b res out
    | [] ↦ elim (owner_account b.accounts) [
      | none ↦ err no_owner
      | some own ↦ close_own b res own out
    ]
  ]

-- The close entries' lines on one account, with the accounts on the other side.
pub record ClosePost : Type 0 where
  pub id : Text
  pub note : Text
  pub amt : ℤ
  pub others : List Text

unfoldable pub lines_on : Text → CloseEntry → List Line → List ClosePost
lines_on name e [] = []
lines_on name e (l ∷ ls) =
    let others = map (λ m. m.0) (keep (λ m. other_side l.1 m.1) e.lines) in
    if same l.0 name
    then record { id = e.id; note = e.note; amt = l.1; others = others } ∷ lines_on name e ls
    else lines_on name e ls

unfoldable pub posts_on : Text → List CloseEntry → List ClosePost
unfolding lines_on
posts_on name [] = []
posts_on name (e ∷ es) = lines_on name e e.lines ++ posts_on name es

unfoldable pub close_posts : Book → Text → Result (List ClosePost)
unfolding close_entries posts_on
close_posts b name = do ok (posts_on name (← close_entries b))
