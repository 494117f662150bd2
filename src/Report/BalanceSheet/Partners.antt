-- ===== src/Report/BalanceSheet/Partners.antt =====
-- The partners' accounts in `sec_balance_sheet`, and `int_or`, which reads their amounts back from the
-- page.
use rukka_folio.Prelude.{
  Bool, ℕ, ◌+◌, ◌*◌, ◌-◌, false, ◌&&◌, ltb, ◌==◌, List, [], ◌∷◌, ◌++◌, if◌then◌else◌, length, ℤ,
  pos, neg, ◌+ℤ◌, ◌-ℤ◌, eqb_ℤ, leb_ℤ, Text, txt, cat, same, none, some,
}
use rukka_folio.Dates.{fy_start, fy_end}
use rukka_folio.Money.{fmt, fmt_zero}
use rukka_folio.Fault.{
  Result, ok, err, ◌>>=◌, ◌>>◌, guard, or_key_error, key_error, partner_differs, own_money_differs,
  value_error,
}
use rukka_folio.Book.{Partner, Book, find_account}
use rukka_folio.Queries.{movement_on}
use rukka_folio.Appropriation.{Part, appropriation}
use rukka_folio.Close.Balances.{Balances, balance_of}
use rukka_folio.Report.Markdown.{Page, l, r, table, amt_side}
use rukka_folio.Report.BalanceSheet.Sheet.{SheetSums}

-- What this part leaves: its page, the rows of the own money, and the sheet with what the partners owe.
pub record PartnerSums : Type 0 where
  pub page : Page
  pub eq : List (List Text)
  pub sheet : SheetSums
  pub owed : ℤ

-- The loop over the partners; `prow` are the rows of the partners' table.
pub record Shown : Type 0 where
  pub prow : List (List Text)
  pub eq : List (List Text)
  pub sheet : SheetSums
  pub owed : ℤ

-- `int(s)` of a text of ASCII digits, as `fmt` prints them; other texts are errors.
unfoldable pub digits_of : ℕ → Text → Result ℕ
digits_of n [] = ok n
digits_of n (c ∷ s) =
    let rest = digits_of (n * 10 + (c - 48)) s in
    if ltb 47 c && ltb c 58 then rest else err value_error

unfoldable pub int_of : Text → Result ℕ
unfolding digits_of
int_of [] = err value_error
int_of (c ∷ s) = digits_of 0 (c ∷ s)

-- `s.replace("**", "")` and `s.replace(",", "")`
unfoldable pub without_stars : Text → Text
without_stars [] = []
without_stars (c ∷ []) = c ∷ []
without_stars (c ∷ d ∷ s) =
    let shorter = without_stars s in
    let kept = without_stars (d ∷ s) in if (c == 42) && (d == 42) then shorter else c ∷ kept

unfoldable pub without_commas : Text → Text
without_commas [] = []
without_commas (c ∷ s) = let rest = without_commas s in if c == 44 then rest else c ∷ rest

-- `s.lstrip("−")`
unfoldable pub without_minus : Text → Text
without_minus [] = []
without_minus (c ∷ s) = let rest = without_minus s in if c == 8722 then rest else c ∷ s

-- `s.partition(".")`, its first and its last part.
unfoldable pub at_dot : Text → Text × Text
at_dot [] = ([], [])
at_dot (c ∷ s) = let (u, v) = at_dot s in if c == 46 then ([], s) else (c ∷ u, v)

-- `int_or(cell)`
unfoldable pub int_or : Text → Result ℤ
unfolding int_of without_stars without_commas without_minus at_dot
int_or cell =
    let s = without_commas (without_stars cell) in
    let parts = at_dot (without_minus s) in
    do
      whole ← int_of parts.0
      paise ← (if length parts.1 == 0 then ok 0 else int_of parts.1)
      let v = pos (whole * 100 + paise)
      ok (if starts_minus s then neg v else v)
  where
    starts_minus : Text → Bool
    starts_minus [] = false
    starts_minus (c ∷ s) = c == 8722

unfoldable pub second_cell : List Text → Result Text
second_cell (x ∷ y ∷ rest) = ok y
second_cell _ = err key_error

-- `sum(int_or(r[1]) for r in eq_rows)`
unfoldable pub sum_cells : List (List Text) → Result ℤ
unfolding int_or second_cell
sum_cells [] = ok (pos 0)
sum_cells (row ∷ rows) =
    let rest = sum_cells rows in do c ← second_cell row; x ← int_or c; y ← rest; ok (x +ℤ y)

-- The word of a partner's account.
unfoldable pub account_word : Partner → Text → Text
unfolding txt
account_word p n = elim p.capital [
  | none ↦ txt "Partner's account"
  | some c ↦ if same n c then txt "Capital" else txt "Current"
]

-- One account of a partner, with the interest and the share that the close credits to it.
unfoldable pub partner_row : Book → Balances → Partner → Text → ℕ → ℕ → Result (List Text)
unfolding movement_on balance_of account_word amt_side fmt find_account
partner_row b pcb p n interest share = do
  a ← or_key_error (find_account n b.accounts)
  let (taken, put) = movement_on fy_start fy_end a
  let after = neg a.closing +ℤ pos (interest + share)
  guard (eqb_ℤ (neg (balance_of n pcb)) after && eqb_ℤ (a.opening +ℤ taken -ℤ put) a.closing)
      partner_differs
  ok (
      p.name
      ∷ account_word p n
      ∷ amt_side a.opening
      ∷ fmt put
      ∷ fmt (pos interest)
      ∷ fmt (pos share)
      ∷ fmt taken
      ∷ amt_side (neg after)
      ∷ [])

-- The rows of one partner's accounts.
unfoldable pub partner_rows : Book → Balances → Part → Result (List (List Text))
unfolding partner_row
partner_rows b pcb q = elim q.partner.capital [
  | none ↦ do ok ((← partner_row b pcb q.partner q.partner.current q.interest q.share) ∷ [])
  | some n ↦ do
    capital ← partner_row b pcb q.partner n 0 0
    current ← partner_row b pcb q.partner q.partner.current q.interest q.share
    ok (capital ∷ current ∷ [])
]

-- What a partner's accounts add to the own money, or to what the book will get.
unfoldable pub partner_lines : Partner → Text → ℤ → ℤ → Shown → Shown
unfolding fmt_zero txt
partner_lines p n cap after s =
    let name = p.name in
    let with_capital =
      s.eq ++ ((cat (name ∷ txt " — capital account at the end" ∷ []) ∷ fmt_zero cap ∷ []) ∷ []) in
    if leb_ℤ (pos 0) after
    then record s {
      eq =
          with_capital
          ++ ((cat (name ∷ txt " — current account at the end" ∷ []) ∷ fmt_zero after ∷ []) ∷ []);
    }
    else record s {
      eq = with_capital;
      sheet = record s.sheet {
        asset =
            s.sheet.asset
            ++ ((cat (p.current ∷ txt " (Dr — " ∷ name ∷ txt " owes the firm)" ∷ [])
                  ∷ fmt_zero (neg after)
                  ∷ [])
                ∷ []);
        ta = s.sheet.ta +ℤ neg after;
      };
      owed = s.owed +ℤ neg after;
    }

-- One round of the loop over the partners.
unfoldable pub partner_step : Book → Balances → Part → Shown → Result Shown
unfolding partner_rows partner_lines find_account fmt_zero txt
partner_step b pcb q s = do
  let p = q.partner
  rows ← partner_rows b pcb q
  current ← or_key_error (find_account p.current b.accounts)
  let after = neg current.closing +ℤ pos q.interest +ℤ pos q.share
  let shown = record s { prow = s.prow ++ rows }
  elim p.capital [
    | none ↦ ok (record shown {
      eq =
          s.eq
          ++ ((cat (p.name ∷ txt " — partner's account at the end" ∷ []) ∷ fmt_zero after ∷ [])
              ∷ []);
    })
    | some n ↦ do
      a ← or_key_error (find_account n b.accounts)
      ok (partner_lines p n (neg a.closing) after shown)
  ]

unfoldable pub partner_steps : Book → Balances → List Part → Shown → Result Shown
unfolding partner_step
partner_steps b pcb [] s = ok s
partner_steps b pcb (q ∷ qs) s = do s' ← partner_step b pcb q s; partner_steps b pcb qs s'

-- `if b.partners:`, with the assertion on the amounts as they are printed.
unfoldable pub partner_part : Book → ℤ → ℤ → Balances → SheetSums → Result PartnerSums
unfolding appropriation partner_steps sum_cells table txt
partner_part b result own_close pcb sheet = do
  ap ← appropriation b result
  s ← partner_steps b pcb ap (record { prow = []; eq = []; sheet = sheet; owed = pos 0 })
  printed ← sum_cells s.eq
  guard (eqb_ℤ (printed -ℤ s.owed) own_close) own_money_differs
  ok (record {
    page =
        (txt "**The partners' accounts at the year end**" ∷ [] ∷ [])
        ++ table
            (txt "Partner"
              ∷ txt "Account"
              ∷ txt "Opening ₹"
              ∷ txt "+ Put in ₹"
              ∷ txt "+ Interest on capital ₹"
              ∷ txt "+ Share of profit ₹"
              ∷ txt "− Drawings ₹"
              ∷ txt "Closing ₹"
              ∷ [])
            (l ∷ l ∷ r ∷ r ∷ r ∷ r ∷ r ∷ r ∷ []) s.prow
        ++ ([] ∷ []);
    eq = s.eq;
    sheet = s.sheet;
    owed = s.owed;
  })
