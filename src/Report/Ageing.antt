-- ===== src/Report/Ageing.antt =====
-- `fifo_open_items` and the figures of `sec_ageing` of docs/accounting/reference-books/build.py:
-- what each person owes or is owed, and since when.
pub mod Fifo
pub mod Page
use rukka_folio.Prelude.{
  ℕ, zero, suc, ◌+◌, ◌-◌, Bool, true, false, not, ◌||◌, List, [], ◌∷◌, ◌++◌, ltb, leb, ◌==◌,
  if◌then◌else◌, ℤ, pos, pos_part, neg_part, neg, ◌+ℤ◌, is_pos, is_neg, is_nil, eqb_ℤ, abs, sum_by,
  length, Text, min,
}
use rukka_folio.Dates.{Date, fy_start, fy_end}
use rukka_folio.Kinds.{party, is_kind}
use rukka_folio.Fault.{Result, ok, ◌>>=◌, ◌>>◌, guard, ageing_differs}
use rukka_folio.Book.{Account, Row, Book}
use rukka_folio.Queries.{balance_on}

-- An open item: its date and its signed amount.
abbrev pub Items : Type 0
Items = List (Date × ℤ)

abbrev pub open_total : Items → ℤ
open_total = sum_by (λ i. i.1)

-- `min(abs(amt), abs(x))`
abbrev pub taken : ℤ → ℤ → ℕ
taken amt x = min (pos_part amt + neg_part amt) (pos_part x + neg_part x)

-- `x += take if x < 0 else -take`
abbrev pub toward_nil : ℕ → ℤ → ℤ
toward_nil take x = if is_neg x then x +ℤ pos take else x +ℤ neg (pos take)

-- The test of the inner loop fails: nothing is left to settle, or the sides are the same.
abbrev pub settled : ℤ → ℤ → Bool
settled amt x = is_nil amt || (if is_pos x then is_pos amt else not (is_pos amt))

-- The inner `while`, on fuel: an amount settles the oldest items of the other side.
unfoldable pub settle_items : ℕ → ℤ → Items → ℤ × Items
settle_items zero amt items = (amt, items)
settle_items (suc fuel) amt [] = (amt, [])
settle_items (suc fuel) amt ((d, x) ∷ items) =
    let take = taken amt x in
    let x' = toward_nil take x in
    let amt' = toward_nil take amt in
    let popped = settle_items fuel amt' items in
    let again = settle_items fuel amt' ((d, x') ∷ items) in
    if settled amt x then (amt, (d, x) ∷ items) else if is_nil x' then popped else again

-- One row, once its amount has settled what it can.
abbrev pub open_rest : Date → ℤ × Items → Items
open_rest d (amt, items) = if is_nil amt then items else items ++ ((d, amt) ∷ [])

unfoldable pub fifo_row : Date → ℤ → Items → Items
unfolding settle_items
fifo_row d amt items = open_rest d (settle_items (length items + 2) amt items)

-- The loop over the rows, with its `break`.
unfoldable pub fifo_rows : Date → List Row → Items → Items
unfolding fifo_row
fifo_rows upto [] items = items
fifo_rows upto (r ∷ rs) items =
    let more = fifo_rows upto rs (fifo_row r.date (r.dr +ℤ neg r.cr) items) in
    if ltb upto r.date then items else more

unfoldable pub fifo_open_items : Account → Date → Items
unfolding fifo_rows fy_start
fifo_open_items a upto =
    fifo_rows upto a.rows (if is_nil a.opening then [] else (fy_start, a.opening) ∷ [])

-- The three buckets of days.
unfoldable pub buckets : Items → ℤ × ℤ × ℤ
unfolding fy_end
buckets [] = (pos 0, pos 0, pos 0)
buckets ((d, x) ∷ items) =
    let (a, b, c) = buckets items in
    let days = fy_end - d in
    if leb days 30
    then (a +ℤ abs x, b, c)
    else if leb days 90
    then (a, b +ℤ abs x, c)
    else (a, b, c +ℤ abs x)

-- A row of the table: the account, its balance, the buckets and the oldest open day.
pub record AgeingRow : Type 0 where
  pub name : Text
  pub balance : ℤ
  pub days : ℤ × ℤ × ℤ
  pub since : Items

abbrev pub ageing_row : Account → AgeingRow
ageing_row a =
    let items = fifo_open_items a fy_end in
    record { name = a.name; balance = balance_on fy_end a; days = buckets items; since = items }

-- The loop of `sec_ageing`, with its assertion.
unfoldable pub ageing_rows : List Account → Result (List AgeingRow)
unfolding fifo_open_items buckets balance_on
ageing_rows [] = ok []
ageing_rows (a ∷ rest) =
    let more = ageing_rows rest in
    if not (is_kind a.kind party) || is_nil (balance_on fy_end a) then more else do
      guard (eqb_ℤ (open_total (fifo_open_items a fy_end)) (balance_on fy_end a)) ageing_differs
      rows ← more
      ok (ageing_row a ∷ rows)
