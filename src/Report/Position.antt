-- ===== src/Report/Position.antt =====
-- The position of docs/accounting/reference-books/build.py: what the book has, will get and will
-- give on a day, and how its own money is made up. `foot_notes` is told which notes apply.
pub mod Sides
pub mod MakeUp
use rukka_folio.Prelude.{
  ℕ, suc, Bool, true, false, not, ◌&&◌, List, [], ◌∷◌, ◌++◌, leb, ◌==◌, if◌then◌else◌, ℤ, pos,
  pos_part, neg, ◌+ℤ◌, ◌-ℤ◌, abs, is_pos, is_neg, is_nil, leb_ℤ, eqb_ℤ, sum_by, length, keep,
  some_of, Text, txt, same, map, Option, none, some,
}
use rukka_folio.Dates.{Date, fdate}
use rukka_folio.Money.{fmt, fmt_zero}
use rukka_folio.Kinds.{
  Kind, party, link, fund, fixed, stake, have_kinds, in_kinds, is_kind, is_bs_kind, is_equity_kind,
}
use rukka_folio.Fault.{Result, ok, ◌>>=◌, ◌>>◌, guard, make_up_differs}
use rukka_folio.Book.{Account, Book, Voucher, Style, business, property, household, npo}
use rukka_folio.Queries.{balance_on, equity_parts, result_to}
use rukka_folio.Report.Markdown.{Page, Align, l, r, table, bold, head_line}

pub data Place : Type 0 where
  have get give funds : Place

abbrev pub place_tag : Place → ℕ
place_tag have = 0
place_tag get = 1
place_tag give = 2
place_tag funds = 3

-- `place(a, bal)`
unfoldable pub place : Kind → ℤ → Place
place k bal =
    if in_kinds have_kinds k
    then (if leb_ℤ (pos 0) bal then have else give)
    else if in_kinds (party ∷ link ∷ []) k
    then (if is_pos bal then get else give)
    else if is_kind k fund
    then funds
    else if leb_ℤ bal (pos 0)
    then give
    else have

-- The accounts that the loop places at p: not a head, not own money, and not nil.
unfoldable pub stands_at : Place → Kind → ℤ → Bool
unfolding place is_bs_kind is_equity_kind
stands_at p k bal =
    is_bs_kind k
    && (not (is_equity_kind k) && (not (is_nil bal) && (place_tag (place k bal) == place_tag p)))

-- `groups[p]`
unfoldable pub group_of : Place → Date → List Account → List Account
unfolding stands_at balance_on
group_of p d = keep (λ a. stands_at p a.kind (balance_on d a))

-- The total of a group.
unfoldable pub group_total : Place → Date → List Account → ℤ
unfolding group_of balance_on
group_total p d accounts = sum_by (λ a. abs (balance_on d a)) (group_of p d accounts)

unfoldable pub net_position : Date → List Account → ℤ
unfolding group_total
net_position d accounts =
    group_total have d accounts
    +ℤ group_total get d accounts
    -ℤ group_total give d accounts
    -ℤ group_total funds d accounts

-- `start + put - taken + result`
unfoldable pub own_money : Book → Date → ℤ
unfolding equity_parts result_to
own_money b d =
    let (start, put, taken) = equity_parts b d in
    let (inc, exp) = result_to b d in start +ℤ put -ℤ taken +ℤ (inc -ℤ exp)

unfoldable pub result_word : Style → ℤ → Text
unfolding txt
result_word npo x = if leb_ℤ (pos 0) x then txt "surplus" else txt "deficit"
result_word household x = if leb_ℤ (pos 0) x then txt "saving" else txt "spent more than came in"
result_word business x = if leb_ℤ (pos 0) x then txt "profit" else txt "loss"
result_word property x = if leb_ℤ (pos 0) x then txt "profit" else txt "loss"

unfoldable pub shows_things_owned : Book → Date → Bool
unfolding balance_on
shows_things_owned b d =
    some_of (λ a. is_kind a.kind fixed && not (is_nil (balance_on d a))) b.accounts

unfoldable pub shows_stakes : Book → Date → ℕ
unfolding balance_on
shows_stakes b d =
    length (keep (λ a. is_kind a.kind stake && not (is_nil (balance_on d a))) b.accounts)

-- `built_to(b, date)`, of the head that the building is charged to.
unfoldable pub built_to : Book → Text → Date → ℤ
built_to b head d =
    sum_by
      (λ (w : Voucher). sum_by (λ x. if same x.0 head && is_pos x.1 then x.1 else pos 0) w.lines)
      (keep (λ (w : Voucher). leb w.date d) b.vouchers)

abbrev pub build_line : Text → ℤ → Text
build_line name x =
    txt "The cost of "
    ++ (name
        ++ (txt ", ₹"
            ++ (fmt x
                ++ txt " to date, is charged to expenditure and is not shown as a thing owned.")))

-- `foot_notes(b, things, stock, stakes, date)`
unfoldable pub foot_notes : Book → Bool → Bool → ℕ → Option Date → Page
unfolding built_to fmt txt
foot_notes b things stock stakes date =
    (elim date [
      | none ↦ []
      | some d ↦ elim b.construction [
        | none ↦ []
        | some c ↦
            if is_nil (built_to b c.0 d) then [] else build_line c.1 (built_to b c.0 d) ∷ [] ∷ []
      ]
    ])
    ++ ((if stakes == 0
          then []
          else if stakes == 1
          then txt "The business is shown at the money put into it, not at its worth." ∷ [] ∷ []
          else txt "The businesses are shown at the money put into them, not at their worth."
            ∷ []
            ∷ [])
        ++ ((if things
              then txt "Things owned are shown at what they cost; no depreciation is charged."
                ∷ []
                ∷ []
              else [])
            ++ (if stock && b.stock_line
                then txt
                    "No stock is counted. Everything bought for sale is treated as sold or used in the year it was bought."
                  ∷ []
                  ∷ []
                else [])))

-- The rows of a group, its amounts in the first or the second column.
unfoldable pub group_rows : Text → Bool → Date → List Account → List (List Text)
unfolding fmt_zero balance_on
group_rows word left d [] = []
group_rows word left d (a ∷ rest) =
    let x = fmt_zero (abs (balance_on d a)) in
    (if left then word ∷ a.name ∷ x ∷ [] ∷ [] else word ∷ a.name ∷ [] ∷ x ∷ [])
    ∷ group_rows word left d rest

abbrev total_row : Text → Bool → ℤ → List Text
total_row word left x =
    if left
    then [] ∷ bold word ∷ bold (fmt_zero x) ∷ [] ∷ []
    else [] ∷ bold word ∷ [] ∷ bold (fmt_zero x) ∷ []

-- The table of the position.
unfoldable pub position_rows : Book → Date → List (List Text)
unfolding group_rows group_of group_total net_position fmt_zero bold txt
position_rows b d =
    let fs = group_of funds d b.accounts in
    let net = net_position d b.accounts in
    group_rows (txt "What I have") true d (group_of have d b.accounts)
    ++ (total_row (txt "Total — what I have") true (group_total have d b.accounts) ∷ [])
    ++ group_rows (txt "What I will get") true d (group_of get d b.accounts)
    ++ (total_row (txt "Total — what I will get") true (group_total get d b.accounts) ∷ [])
    ++ group_rows (txt "What I will give") false d (group_of give d b.accounts)
    ++ (total_row (txt "Total — what I will give") false (group_total give d b.accounts) ∷ [])
    ++ (if length fs == 0
        then []
        else group_rows (txt "Funds held for a purpose") false d fs
          ++ (total_row (txt "Total — funds") false (group_total funds d b.accounts) ∷ []))
    ++ (([]
          ∷ bold (
              b.own_word
              ++ (txt " = have + will get − will give"
                  ++ (if length fs == 0 then [] else txt " − funds")))
          ∷ bold (fmt_zero (abs net) ++ (if is_neg net then txt " Dr" else []))
          ∷ []
          ∷ [])
        ∷ [])

-- The make-up of the own money.
unfoldable pub make_up_rows : Book → Date → List (List Text)
unfolding equity_parts result_to own_money result_word fmt_zero bold txt
make_up_rows b d =
    let (start, put, taken) = equity_parts b d in
    let (inc, exp) = result_to b d in
    let x = inc -ℤ exp in
    let word = result_word b.style x ++ txt ")" in
    (txt "Income so far" ∷ fmt_zero inc ∷ [])
    ∷ (txt "− Spent so far" ∷ fmt_zero exp ∷ [])
    ∷ (bold (txt "= Result so far (" ++ word) ∷ bold (fmt_zero (abs x)) ∷ [])
    ∷ ((b.own_word ++ txt " at the start of the year (01 Apr 2025)") ∷ fmt_zero start ∷ [])
    ∷ ((txt "+ " ++ (b.put_word ++ (txt " so far" ++ b.put_note))) ∷ fmt_zero put ∷ [])
    ∷ ((txt "− " ++ (b.taken_word ++ (txt " so far" ++ b.taken_note))) ∷ fmt_zero taken ∷ [])
    ∷ (((if leb_ℤ (pos 0) x then txt "+" else txt "−") ++ (txt " Result so far (" ++ word))
        ∷ fmt_zero (abs x)
        ∷ [])
    ∷ (bold (txt "= " ++ (b.own_word ++ txt " now")) ∷ bold (fmt_zero (own_money b d)) ∷ [])
    ∷ []

-- `position_table`, below its heading and its introduction: the page, and the page behind its assertion.
unfoldable pub position_page : Book → Date → Page
unfolding position_rows make_up_rows foot_notes shows_things_owned shows_stakes table txt
position_page b d =
    table ([] ∷ txt "Account" ∷ txt "Have / will get ₹" ∷ txt "Will give / funds ₹" ∷ [])
      (l ∷ l ∷ r ∷ r ∷ []) (position_rows b d)
    ++ ([] ∷ [])
    ++ table (txt "How it is made up" ∷ txt "₹" ∷ []) (l ∷ r ∷ []) (make_up_rows b d)
    ++ ([] ∷ [])
    ++ foot_notes b (shows_things_owned b d) true (shows_stakes b d) (some d)

unfoldable pub position_table : Book → Date → Result Page
unfolding position_page
position_table b d = do
  guard (eqb_ℤ (own_money b d) (net_position d b.accounts)) make_up_differs
  ok (position_page b d)
