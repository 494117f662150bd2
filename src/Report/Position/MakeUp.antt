-- ===== src/Report/Position/MakeUp.antt =====
-- The two ways to the own money, `have + will get - will give - funds` and `start + put in - taken
-- out + result`, differ by the debit balances of the funds alone.
use rukka_folio.Prelude.{
  when, is_nil, ◌≢◌, ◌⊎◌, ◌≡◌, ◌≤◌, refl, sym, ◌∙◌, Bool, true, false, Bool-cases, inl, inr, leb,
  le→leb, List, [], ◌∷◌, ◌++◌, ℤ, pos, neg, ◌+ℤ◌, ◌-ℤ◌, int_laws, abs, eqb_ℤ, sum_by, keep, All,
  arith, map,
}
use rukka_folio.Dates.{Date, fy_start}
use rukka_folio.Kinds.{income, expense, is_kind, is_equity_kind}
use rukka_folio.Fault.{ok, err, make_up_differs}
use rukka_folio.Entry.Known.{is_nil→eq}
use rukka_folio.Report.Markdown.{Page}
use rukka_folio.Book.{Account, Book, Row}
use rukka_folio.Entry.{validate_vouchers}
use rukka_folio.Posting.{post, post_row, reset, close_off, opening_total}
use rukka_folio.Posting.Ledger.{All-post_vouchers, All-map, All-All}
use rukka_folio.Posting.Parts.{post-parts}
use rukka_folio.Queries.{balance_on, movement_on, within, result_to, equity_parts}
use rukka_folio.Queries.Totals.{balances-opening_total}
use rukka_folio.Report.Position.{
  Place, have, get, give, funds, group_total, group_of, net_position, own_money, stands_at,
  position_table, position_page,
}
use rukka_folio.Report.Position.Sides.{sum-keep, overdrawn, kind_splits}

-- The debit balances of the funds on a day.
abbrev pub fund_debits : Date → List Account → ℤ
fund_debits d = sum_by (λ a. overdrawn a.kind (balance_on d a))

module _ (d : Date) where
  abbrev whens : (Account → Bool) → List Account → ℤ
  whens p = sum_by (λ a. when (p a) (balance_on d a))

  abbrev placed : Place → List Account → ℤ
  placed p = sum_by (λ a. when (stands_at p a.kind (balance_on d a)) (abs (balance_on d a)))

  net-placed :
      (accounts : List Account)
      → net_position d accounts
        ≡ placed have accounts
          +ℤ placed get accounts
          -ℤ placed give accounts
          -ℤ placed funds accounts
  unfolding net_position group_total group_of
  net-placed accounts = simp sum-keep

  -- The accounts placed, the own money and the heads make up all the balances.
  balances_split :
      (accounts : List Account)
      → placed have accounts
          +ℤ placed get accounts
          -ℤ placed give accounts
          -ℤ placed funds accounts
          +ℤ (fund_debits d accounts +ℤ fund_debits d accounts)
          +ℤ (whens (λ a. is_equity_kind a.kind) accounts
              +ℤ whens (λ a. is_kind a.kind income) accounts
              +ℤ whens (λ a. is_kind a.kind expense) accounts)
        ≡ sum_by (balance_on d) accounts
  balances_split [] = omega int_laws
  balances_split (a ∷ rest) =
      omega (int_laws, balances_split rest, kind_splits a.kind (balance_on d a))

-- Every row is dated in the year or later.
abbrev pub From : List Row → Type 0
From = All (λ r. fy_start ≤ r.date)

pub within-From :
    (d : Date) (rs : List Row) → From rs → within fy_start d rs ≡ keep (λ r. leb r.date d) rs
within-From d [] h = refl
within-From d (r ∷ rs) h = rw (le→leb fy_start r.date h.0, within-From d rs h.1)

sum-sides :
    (rs : List Row) → sum_by (λ r. r.dr -ℤ r.cr) rs ≡ sum_by (λ r. r.dr) rs -ℤ sum_by (λ r. r.cr) rs
sum-sides [] = omega int_laws
sum-sides (r ∷ rs) = omega (int_laws, sum-sides rs)

-- What own money was, with what went in and out, is its balance.
balance_on-year :
    (d : Date) (a : Account)
    → From a.rows
    → balance_on d a ≡ a.opening +ℤ (movement_on fy_start d a).0 -ℤ (movement_on fy_start d a).1
unfolding balance_on movement_on
balance_on-year d a h =
    rw (within-From d a.rows h, sum-sides (keep (λ (r : Row). leb r.date d) a.rows))
      (omega int_laws)

pub equity-balances :
    (d : Date) (accounts : List Account)
    → All (λ a. From a.rows) accounts
    → sum_by (λ a. when (is_equity_kind a.kind) (balance_on d a)) accounts
      ≡ sum_by (λ a. when (is_equity_kind a.kind) a.opening) accounts
        +ℤ sum_by (λ a. when (is_equity_kind a.kind) (movement_on fy_start d a).0) accounts
        -ℤ sum_by (λ a. when (is_equity_kind a.kind) (movement_on fy_start d a).1) accounts
equity-balances d [] h = omega int_laws
equity-balances d (a ∷ rest) h = elim (Bool-cases (is_equity_kind a.kind)) [
  | inl e ↦ rw (e, balance_on-year d a h.0, equity-balances d rest h.1) (omega int_laws)
  | inr e ↦ rw (e, equity-balances d rest h.1) (omega int_laws)
]

pub sum_by-neg :
    (p : Account → Bool) (f : Account → ℤ) (xs : List Account)
    → sum_by (λ x. when (p x) (neg (f x))) xs ≡ neg (sum_by (λ x. when (p x) (f x)) xs)
sum_by-neg p f [] = omega int_laws
sum_by-neg p f (x ∷ xs) = elim (Bool-cases (p x)) [
  | inl e ↦ rw (e, sum_by-neg p f xs) (omega int_laws)
  | inr e ↦ rw (e, sum_by-neg p f xs) (omega int_laws)
]

-- The own money by its make-up, as balances.
own_money-balances :
    (b : Book) (d : Date)
    → All (λ a. From a.rows) b.accounts
    → own_money b d
      ≡ neg (
          whens d (λ a. is_equity_kind a.kind) b.accounts
          +ℤ whens d (λ a. is_kind a.kind income) b.accounts
          +ℤ whens d (λ a. is_kind a.kind expense) b.accounts)
unfolding own_money equity_parts result_to
own_money-balances b d h =
    rw
      (
        sum-keep (λ (a : Account). is_equity_kind a.kind) (λ a. a.opening),
        sum-keep (λ (a : Account). is_equity_kind a.kind) (λ a. (movement_on fy_start d a).1),
        sum-keep (λ (a : Account). is_equity_kind a.kind) (λ a. (movement_on fy_start d a).0),
        sum-keep (λ (a : Account). is_kind a.kind income) (λ a. neg (balance_on d a)),
        sum-keep (λ (a : Account). is_kind a.kind expense) (balance_on d),
        sum_by-neg (λ (a : Account). is_kind a.kind income) (balance_on d) b.accounts,
        equity-balances d b.accounts h,
      )
      (omega int_laws)

From-append : (rs : List Row) (r : Row) → From rs → fy_start ≤ r.date → From (rs ++ (r ∷ []))
From-append [] r h k = (k, tt)
From-append (q ∷ rs) r h k = (h.0, From-append rs r h.1 k)

-- The rows of a book whose entries are of the year or later.
pub post-From :
    (b b' : Book)
    → All (λ w. fy_start ≤ w.date) b.vouchers
    → post b ≡ ok b'
    → All (λ a. From a.rows) b'.accounts
unfolding post_row
post-From b b' h k =
    let (after, p, e) = post-parts b b' k in
    rw e (
      All-map (λ a. From a.rows) (λ a. From a.rows) close_off (λ a r. r) after
        (All-post_vouchers (λ a. From a.rows) (λ w. fy_start ≤ w.date)
          (λ w part amt a c u. From-append a.rows _ u c) b.vouchers (map reset b.accounts) after h p
          (All-map (λ a. Unit {0}) (λ a. From a.rows) reset (λ a u. tt) b.accounts
            (All-All _ (λ a. tt) b.accounts))))

-- When `post` returns a book, its entries having passed `validate_vouchers` and being dated from
-- the year's first day on, and its openings adding up to nil, then on every day the own money by
-- its make-up is the net position, with the debit balances of the funds added twice.
pub own_money-net_position :
    (b b' : Book) (d : Date)
    → validate_vouchers b.accounts b.vouchers ≡ ok tt
    → All (λ w. fy_start ≤ w.date) b.vouchers
    → opening_total b.accounts ≡ pos 0
    → post b ≡ ok b'
    → own_money b' d
      ≡ net_position d b'.accounts +ℤ (fund_debits d b'.accounts +ℤ fund_debits d b'.accounts)
own_money-net_position b b' d valid dates openings posted =
    let total = balances-opening_total b b' d valid posted ∙ openings in
    rw (own_money-balances b' d (post-From b b' dates posted), net-placed d b'.accounts)
      (omega (int_laws, balances_split d b'.accounts, total))

eqb_refl : (x y : ℤ) → x ≡ y → eqb_ℤ x y ≡ true
eqb_refl x y e = ground arith

eqb_ne : (x y : ℤ) → x ≢ y → eqb_ℤ x y ≡ false
eqb_ne x y e = ground arith

twice-nil : (x y : ℤ) → x +ℤ (y +ℤ y) ≡ x → y ≡ pos 0
twice-nil x y e = omega (int_laws, e)

not_nil : (x : ℤ) → is_nil x ≡ false → x ≢ pos 0
not_nil x h = ground arith

-- When `post` returns a book, its entries having passed `validate_vouchers` and being dated from
-- the year's first day on, and its openings adding up to nil, `position_table` makes its page on a
-- day when the funds have no debit balance, and its assertion fails on a day when a fund has one.
pub position_table-fund_debits :
    (b b' : Book) (d : Date)
    → validate_vouchers b.accounts b.vouchers ≡ ok tt
    → All (λ w. fy_start ≤ w.date) b.vouchers
    → opening_total b.accounts ≡ pos 0
    → post b ≡ ok b'
    → ((fund_debits d b'.accounts ≡ pos 0) × ((page : Page) × (position_table b' d ≡ ok page)))
      ⊎ ((fund_debits d b'.accounts ≢ pos 0) × (position_table b' d ≡ err make_up_differs))
unfolding position_table
position_table-fund_debits b b' d valid dates openings posted =
    let e = own_money-net_position b b' d valid dates openings posted in
    elim (Bool-cases (is_nil (fund_debits d b'.accounts))) [
      | inl z ↦
          let nil = is_nil→eq _ z in
          let same_money : own_money b' d ≡ net_position d b'.accounts =
            e ∙ rw nil (omega int_laws) in
          inl (nil, (position_page b' d, rw (eqb_refl _ _ same_money)))
      | inr z ↦
          let over : fund_debits d b'.accounts ≢ pos 0 = λ q. not_nil _ z q in
          let other : own_money b' d ≢ net_position d b'.accounts =
            λ q. over (twice-nil (net_position d b'.accounts) _ (sym e ∙ q)) in
          inr (over, rw (eqb_ne _ _ other))
    ]
