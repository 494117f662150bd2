-- ===== src/Check/Ageing.antt =====
-- The open items of a person in `check_ageing` of docs/accounting/reference-books/check_md.py, from
-- the postings of the Day Book, and their buckets.
use rukka_folio.Prelude.{
  ◌≡◌, refl, ◌∙◌, ap, ℕ, zero, suc, ◌+◌, ◌-◌, Bool, not, ◌||◌, List, [], ◌∷◌, ◌++◌, length, ltb,
  leb, if◌then◌else◌, ℤ, pos, neg, ◌+ℤ◌, ◌-ℤ◌, int_laws, pos_part, neg_part, is_pos, is_neg, is_nil,
  abs, min, map, Bool-cases, inl, inr,
}
use rukka_folio.Dates.{Date, fy_start, fy_end}
use rukka_folio.Book.{Account, Row}
use rukka_folio.Report.Ageing.{
  Items, settle_items, fifo_row, fifo_rows, fifo_open_items, buckets, taken, toward_nil,
}
use rukka_folio.Check.Book.{Posted, Head}
use rukka_folio.Check.Book.Refined.{posted_of, head_from}

-- `items[0][1] += take if items[0][1] < 0 else -take`, and the same for `amt`.
abbrev pub lessened : ℤ → ℕ → ℤ
lessened x take = x +ℤ (if is_neg x then pos take else neg (pos take))

-- `not (amt and items and (items[0][1] > 0) != (amt > 0))`, for an item `x`.
abbrev pub stops : ℤ → ℤ → Bool
stops amt x = is_nil amt || (if is_pos x then is_pos amt else not (is_pos amt))

-- The `while`, on fuel: each round settles the amount, or takes an item away.
unfoldable pub settle_oldest : ℕ → ℤ → Items → ℤ × Items
settle_oldest zero amt items = (amt, items)
settle_oldest (suc fuel) amt [] = (amt, [])
settle_oldest (suc fuel) amt ((d, x) ∷ items) =
    let take = min (pos_part amt + neg_part amt) (pos_part x + neg_part x) in
    let left = lessened x take in
    let gone = settle_oldest fuel (lessened amt take) items in
    let kept = settle_oldest fuel (lessened amt take) ((d, left) ∷ items) in
    if stops amt x then (amt, (d, x) ∷ items) else if is_nil left then gone else kept

abbrev pub with_rest : Date → ℤ × Items → Items
with_rest d (amt, items) = if is_nil amt then items else items ++ ((d, amt) ∷ [])

-- The loop over `bk.post[name]`, with its `break`; the number of items, and two rounds, are fuel enough.
unfoldable pub open_after : Date → List Posted → Items → Items
unfolding settle_oldest
open_after asof [] items = items
open_after asof (p ∷ ps) items =
    let more =
      open_after asof ps (with_rest p.date (settle_oldest (length items + 2) p.amount items)) in
    if ltb asof p.date then items else more

unfoldable pub open_items : Date → Head → Items
unfolding open_after fy_start
open_items asof h =
    open_after asof h.posts (if is_nil h.opening then [] else (fy_start, h.opening) ∷ [])

-- `bks[0 if days <= 30 else (1 if days <= 90 else 2)] += abs(x)`
abbrev pub put_days : ℕ → ℤ → ℤ × ℤ × ℤ → ℤ × ℤ × ℤ
put_days days x (a, b, c) =
    if leb days 30
    then (a +ℤ abs x, b, c)
    else if leb days 90
    then (a, b +ℤ abs x, c)
    else (a, b, c +ℤ abs x)

-- `bks`, with the items put in from the last to the first.
unfoldable pub bucketed : Date → Items → ℤ × ℤ × ℤ
bucketed asof [] = (pos 0, pos 0, pos 0)
bucketed asof ((d, x) ∷ items) = put_days (asof - d) x (bucketed asof items)

-- The two steps toward nil are one.
lessened-toward_nil : (x : ℤ) (take : ℕ) → lessened x take ≡ toward_nil take x
lessened-toward_nil x take = elim (Bool-cases (is_neg x)) [ inl e ↦ rw e refl | inr e ↦ rw e refl ]

settle_oldest-settle_items :
    (fuel : ℕ) (amt : ℤ) (items : Items)
    → settle_oldest fuel amt items ≡ settle_items fuel amt items
unfolding settle_oldest settle_items
settle_oldest-settle_items zero amt items = refl
settle_oldest-settle_items (suc fuel) amt [] = refl
settle_oldest-settle_items (suc fuel) amt ((d, x) ∷ items) =
    rw
      (
        lessened-toward_nil x (taken amt x),
        lessened-toward_nil amt (taken amt x),
        settle_oldest-settle_items fuel (toward_nil (taken amt x) amt) items,
        settle_oldest-settle_items fuel (toward_nil (taken amt x) amt)
            ((d, toward_nil (taken amt x) x) ∷ items),
      )
      refl

less_credit : (a b : ℤ) → a -ℤ b ≡ a +ℤ neg b
less_credit a b = omega int_laws

open_after-fifo_rows :
    (asof : Date) (rs : List Row) (items : Items)
    → open_after asof (map posted_of rs) items ≡ fifo_rows asof rs items
unfolding open_after fifo_rows fifo_row
open_after-fifo_rows asof [] items = refl
open_after-fifo_rows asof (r ∷ rs) items = elim (Bool-cases (ltb asof r.date)) [
  | inl e ↦ rw (e) refl
  | inr e ↦
      rw
        (
          e,
          less_credit r.dr r.cr,
          settle_oldest-settle_items (length items + 2) (r.dr +ℤ neg r.cr) items,
        )
        (open_after-fifo_rows asof rs _)
]

bucketed-buckets : (items : Items) → bucketed fy_end items ≡ buckets items
unfolding bucketed buckets
bucketed-buckets [] = refl
bucketed-buckets ((d, x) ∷ items) = rw (bucketed-buckets items) refl

-- For every account as a reader sees it, the checker derives the open items that the builder's
-- `fifo_open_items` has, up to every day, and puts those of the year's last day into the same three
-- buckets of days.
pub open_items-fifo_open_items :
    (a : Account) (asof : Date)
    → (open_items asof (head_from a) ≡ fifo_open_items a asof)
      × (bucketed fy_end (open_items fy_end (head_from a)) ≡ buckets (fifo_open_items a fy_end))
unfolding open_items fifo_open_items
open_items-fifo_open_items a asof = (
  open_after-fifo_rows asof a.rows _,
  ap (bucketed fy_end) (open_after-fifo_rows fy_end a.rows _)
      ∙ bucketed-buckets (fifo_open_items a fy_end),
)
