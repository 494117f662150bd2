-- ===== src/Report/Family/Summary.antt =====
-- `sec_family_summary` of docs/accounting/reference-books/build.py: every pair of books agrees. The
-- `counts["result"]` of a book, which `sec_balance_sheet` notes, is `year_result` here.
use rukka_folio.Prelude.{
  ◌+◌, Bool, true, false, ◌&&◌, ◌||◌, List, [], ◌∷◌, ◌++◌, if◌then◌else◌, ◌==◌, ltb, ℤ, pos, neg,
  ◌-ℤ◌, eqb_ℤ, leb_ℤ, ltb_ℤ, is_neg, is_nil, abs, sum_by, dr_of, cr_of, length, map, some_of, Text,
  txt, cat, join, same, or_else, str_of,
}
use rukka_folio.Dates.{Date}
use rukka_folio.Money.{fmt, fmt_zero}
use rukka_folio.Kinds.{stake, income, is_kind, is_bs_kind, is_equity_kind}
use rukka_folio.Fault.{
  Result, ok, err, ◌>>=◌, ◌>>◌, guard, key_error, pair_openings_differ, pair_entries_differ,
  kept_differs, pair_balances_differ,
}
use rukka_folio.Book.{Account, Book}
use rukka_folio.Appropriation.{Part, appropriation}
use rukka_folio.Close.Balances.{balance_of, post_close_balances}
use rukka_folio.Report.Markdown.{Page, side_of, amt_side}
use rukka_folio.Report.Statement.{running_words}
use rukka_folio.Report.YearStatement.{year_result}
use rukka_folio.Report.Family.{accounts_for, PairRow, rows_on}
use rukka_folio.Report.Family.Pair.{pair_section}

-- `p1` and `p2`: the days and amounts of a pair's entries, in order.
abbrev pub DayAmounts : Type 0
DayAmounts = List (Date × ℤ)

abbrev pub day_before : Date × ℤ → Date × ℤ → Bool
day_before p q = ltb p.0 q.0 || ((p.0 == q.0) && ltb_ℤ p.1 q.1)

unfoldable pub insert_day : Date × ℤ → DayAmounts → DayAmounts
insert_day p [] = p ∷ []
insert_day p (q ∷ rest) = if day_before q p then q ∷ insert_day p rest else p ∷ q ∷ rest

unfoldable pub day_amounts : (ℤ → ℤ) → List PairRow → DayAmounts
unfolding insert_day
day_amounts f [] = []
day_amounts f (p ∷ rest) = insert_day (p.date, f p.x) (day_amounts f rest)

unfoldable pub same_days : DayAmounts → DayAmounts → Bool
same_days [] [] = true
same_days [] (q ∷ qs) = false
same_days (p ∷ ps) [] = false
same_days (p ∷ ps) (q ∷ qs) = (p.0 == q.0) && (eqb_ℤ p.1 q.1 && same_days ps qs)

abbrev pub opening_on : List Account → ℤ
opening_on accounts =
    sum_by (λ (a : Account). if is_bs_kind a.kind then a.opening else pos 0) accounts

-- Does one of the accounts show a business at the money put in?
abbrev pub has_stake : List Account → Bool
has_stake = some_of (λ a. is_kind a.kind stake)

-- `m_(x)`
unfoldable pub rupees : ℤ → Text
unfolding fmt_zero txt
rupees x = cat ((if is_neg x then txt "−" else []) ∷ txt "₹" ∷ fmt_zero (abs x) ∷ [])

-- `res`: the owner's part of the business's result.
abbrev pub owners_part : Text → List Part → ℤ
owners_part n =
    sum_by (λ (p : Part). if same p.partner.name n then pos (p.interest + p.share) else pos 0)

unfoldable pub owners_result : Text → Book → Result ℤ
unfolding appropriation year_result
owners_result n bus =
    if length bus.partners == 0
    then ok (year_result bus.accounts)
    else (do ok (owners_part n (← appropriation bus (year_result bus.accounts))))

unfoldable pub kept_words : Book → Book → ℤ → ℤ → ℤ → ℤ → Text
unfolding rupees txt
kept_words own bus worth put res takes =
    let kept = leb_ℤ (pos 0) (worth -ℤ put) in
    let held =
      if length bus.partners == 0
      then txt "the business's own money after the year close"
      else own.name ++ txt "'s partner's account in the business after the year close" in
    cat (
      (if kept
        then txt "**Profit kept in the business — "
        else txt "**Taken out beyond the profit — ")
      ∷ own.name
      ∷ txt " and "
      ∷ bus.name
      ∷ txt ":** "
      ∷ held
      ∷ txt " "
      ∷ rupees worth
      ∷ txt ", less the money put in that "
      ∷ own.name
      ∷ txt " holds "
      ∷ rupees put
      ∷ txt ", is "
      ∷ rupees (worth -ℤ put)
      ∷ (if kept
          then txt ". That is the business's profit for "
          else txt ". The business's profit for ")
      ∷ own.name
      ∷ (if kept then txt " " else txt " was ")
      ∷ rupees res
      ∷ (if kept then txt " less the " else txt " and ")
      ∷ rupees takes
      ∷ (if kept then txt " taken out (" else txt " was taken out (")
      ∷ rupees res
      ∷ txt " − "
      ∷ rupees takes
      ∷ txt " = "
      ∷ rupees (res -ℤ takes)
      ∷ txt ")."
      ∷ [])

-- One round of the loop that fills `kept`: the owner's book and the business's.
unfoldable pub kept_of : Book → Book → List Account → List Account → Result (List Text)
unfolding post_close_balances balance_of owners_result kept_words
kept_of own bus oa ba =
    if has_stake oa
    then (do
      pcb ← post_close_balances bus
      let worth =
          sum_by
            (λ (a : Account). if is_equity_kind a.kind then neg (balance_of a.name pcb) else pos 0)
            ba
      let put = sum_by (λ (a : Account). if is_kind a.kind stake then a.closing else pos 0) oa
      let takes =
          sum_by (λ (a : Account). if is_kind a.kind income then neg a.closing else pos 0) oa
      res ← owners_result own.name bus
      guard (eqb_ℤ (worth -ℤ put) (res -ℤ takes)) kept_differs
      ok (kept_words own bus worth put res takes ∷ []))
    else ok []

abbrev pub first_of : List Account → Result Account
first_of [] = err key_error
first_of (a ∷ rest) = ok a

-- `last(bal1, bal2)`
unfoldable pub last_line :
    Book → Book → List Account → List Account → List Text → ℤ → ℤ → Result Page
unfolding running_words side_of fmt txt
last_line b ob mine theirs (k ∷ ks) bal1 bal2 =
    ok (txt "**Entries agree one for one.**" ∷ [] ∷ spaced (k ∷ ks))
  where
    spaced : List Text → Page
    spaced [] = []
    spaced (k ∷ ks) = k ∷ [] ∷ spaced ks
last_line b ob mine theirs [] bal1 bal2 =
    guard (eqb_ℤ bal1 (neg bal2)) pair_balances_differ
    >> (if is_nil bal1 then ok (txt "**Agrees** — nil in both books." ∷ [] ∷ []) else (do
      a ← first_of mine
      d ← first_of theirs
      ok (
          cat (
            txt "**Agrees** — ₹"
            ∷ fmt (abs bal1)
            ∷ txt " "
            ∷ or_else (running_words a bal1) (side_of bal1)
            ∷ txt " in "
            ∷ b.name
            ∷ txt "'s book, and ₹"
            ∷ fmt (abs bal2)
            ∷ txt " "
            ∷ or_else (running_words d bal2) (side_of bal2)
            ∷ txt " in "
            ∷ ob.name
            ∷ txt "'s book."
            ∷ [])
          ∷ []
          ∷ [])))

-- A pair's row of the table.
unfoldable pub pair_cells :
    Book → Book → List Account → List Account → ℤ → ℤ → DayAmounts → List Text
unfolding amt_side fmt join txt str_of
pair_cells b ob mine theirs op1 op2 p1 =
    let names =
      λ (accounts : List Account). join (txt "<br>") (map (λ (a : Account). a.name) accounts) in
    let given = fmt (sum_by (λ (p : Date × ℤ). dr_of p.1) p1) in
    let received = fmt (sum_by (λ (p : Date × ℤ). cr_of p.1) p1) in
    b.name
    ∷ names mine
    ∷ amt_side op1
    ∷ given
    ∷ received
    ∷ ob.name
    ∷ names theirs
    ∷ amt_side op2
    ∷ received
    ∷ given
    ∷ str_of (length p1)
    ∷ txt "Yes"
    ∷ []

-- One round of the loop over the pairs: the row, and the section.
unfoldable pub pair_part : Book → Book → Result (List Text × Page)
unfolding accounts_for day_amounts same_days kept_of last_line pair_section pair_cells
pair_part b ob = do
  let mine = accounts_for b ob
  let theirs = accounts_for ob b
  let op1 = opening_on mine
  let op2 = opening_on theirs
  guard (eqb_ℤ op1 (neg op2)) pair_openings_differ
  let p1 = day_amounts (λ x. x) (rows_on mine)
  guard (same_days p1 (day_amounts neg (rows_on theirs))) pair_entries_differ
  one ← kept_of b ob mine theirs
  two ← kept_of ob b theirs mine
  section ← pair_section b ob mine theirs op1 op2 (last_line b ob mine theirs (one ++ two))
  ok (pair_cells b ob mine theirs op1 op2 p1, section)

unfoldable pub pair_parts : List (Book × Book) → Result (List (List Text) × Page)
unfolding pair_part
pair_parts [] = ok ([], [])
pair_parts ((b, ob) ∷ rest) =
    let others = pair_parts rest in
    do (row, section) ← pair_part b ob; more ← others; ok (row ∷ more.0, section ++ more.1)
