-- ===== src/Report/CashBook.antt =====
-- `cash_book` of docs/accounting/reference-books/build.py: the Cash Book of cash and each bank account,
-- with a column for each account on each side. `sec_books` prints it behind the Day Book.
use rukka_folio.Prelude.{
  ℕ, Bool, not, ◌&&◌, List, [], ◌∷◌, ◌++◌, if◌then◌else◌, ◌==◌, ℤ, pos, ◌+ℤ◌, eqb_ℤ, is_pos, is_neg,
  is_nil, dr_of, cr_of, sum_by, map, keep, every, some_of, length, mem, Text, txt, cat, join, same,
  Option, none, some,
}
use rukka_folio.Dates.{fdate, fy_start, fy_end, fy_months, month_end, month_name, year_of, month_of}
use rukka_folio.Money.{fmt, fmt_zero}
use rukka_folio.Kinds.{Kind, cash, gollak, bank, is_kind}
use rukka_folio.Fault.{Result, ok, ◌>>=◌, ◌>>◌, guard, or_key_error, cash_book_differs}
use rukka_folio.Book.{Account, Row, Book, Line, Voucher, find_account}
use rukka_folio.Close.Balances.{Balances, balance_of}
use rukka_folio.Report.Markdown.{Page, l, r, table, row_line, bold, head_line}
use rukka_folio.Report.BankExtract.{cr_marked}
use rukka_folio.Report.Daybook.Page.{sec_daybook}

-- `accts`
unfoldable pub accounts_of : List Text → List Account → Result (List Account)
unfolding find_account
accounts_of [] accounts = ok []
accounts_of (n ∷ ns) accounts =
    let rest = accounts_of ns accounts in
    do a ← or_key_error (find_account n accounts); more ← rest; ok (a ∷ more)

-- `short[n]`
unfoldable pub short_name : Account → Text
unfolding txt
short_name a = if is_kind a.kind cash then txt "Cash" else a.name

-- `" | ".join(...)` of a cell for each account.
abbrev pub cells : (ℤ → Text) → Balances → Text
cells f d = join (txt " | ") (map (λ x. f x.1) d)

unfoldable pub cash_heads : List Account → List Text
unfolding short_name txt
cash_heads accts =
    txt "Date"
    ∷ txt "No."
    ∷ txt "Particulars"
    ∷ (map (λ a. cat (txt "Money in (Dr) — " ∷ short_name a ∷ txt " ₹" ∷ [])) accts
        ++ map (λ a. cat (txt "Money out (Cr) — " ∷ short_name a ∷ txt " ₹" ∷ [])) accts
        ++ map (λ a. cat (txt "Balance — " ∷ short_name a ∷ txt " ₹" ∷ [])) accts)

-- `amt`: what a voucher moves on each account.
unfoldable pub amounts_in : List Text → List Line → Balances
amounts_in names ls = map (λ n. (n, sum_by (λ x. if same x.0 n then x.1 else pos 0) ls)) names

-- `d[n] += e[n]`, for each account.
unfoldable pub plus_each : (ℤ → ℤ) → Balances → Balances → Balances
unfolding balance_of
plus_each f e = map (λ x. (x.0, x.1 +ℤ f (balance_of x.0 e)))

abbrev pub names_where : (ℤ → Bool) → Balances → List Text
names_where p d = map (λ x. x.0) (keep (λ x. p x.1) d)

abbrev pub first_part : List Row → Option Text
first_part [] = none
first_part (x ∷ rest) = some x.part

-- `part`
unfoldable pub cash_particulars : List Account → List Text → Voucher → Balances → Result Text
unfolding find_account join mem txt
cash_particulars accounts names w amt =
    let others = keep (λ x. not (mem x.0 names)) w.lines in
    let net = sum_by (λ x. x.1) amt in
    let word = if is_pos net then txt "To " else txt "By " in
    let opposite =
      keep (λ (x : Line). if is_pos net then is_neg x.1 else not (is_neg x.1)) others in
    if length others == 0
    then ok (
        cat (
          join (txt " / ") (names_where is_neg amt)
          ∷ txt " to "
          ∷ join (txt " / ") (names_where is_pos amt)
          ∷ []))
    else elim (names_where (λ x. not (is_nil x)) amt) [
      | n ∷ [] ↦ do
        a ← or_key_error (find_account n accounts)
        or_key_error (first_part (keep (λ k. same k.vid w.vid) a.rows))
      | _ ↦ ok (join (txt " / ") (map (λ x. word ++ x.0) opposite))
    ]

-- What the loops carry: the lines, the balances, and the totals of the month.
pub record CashSums : Type 0 where
  pub out : Page
  pub bal : Balances
  pub mdr : Balances
  pub mcr : Balances

unfoldable pub cash_row : Voucher → Text → Balances → Balances → Text
unfolding row_line fdate fmt cr_marked join txt
cash_row w part amt bal = row_line (
    fdate w.date
    ∷ w.vid
    ∷ cat (part ∷ txt "<br><em>" ∷ w.narration ∷ txt "</em>" ∷ [])
    ∷ cells (λ x. fmt (dr_of x)) amt
    ∷ cells (λ x. fmt (cr_of x)) amt
    ∷ cells cr_marked bal
    ∷ [])

-- The vouchers of a month.
unfoldable pub cash_rows_of : Book → List Text → List Voucher → CashSums → Result CashSums
unfolding cash_particulars amounts_in plus_each cash_row
cash_rows_of b names [] s = ok s
cash_rows_of b names (w ∷ ws) s = do
  let amt = amounts_in names w.lines
  let bal = plus_each (λ x. x) amt s.bal
  part ← cash_particulars b.accounts names w amt
  cash_rows_of b names ws (record {
    out = s.out ++ (cash_row w part amt bal ∷ []);
    bal = bal;
    mdr = plus_each dr_of amt s.mdr;
    mcr = plus_each cr_of amt s.mcr;
  })

abbrev pub nil_each : List Text → Balances
nil_each = map (λ n. (n, pos 0))

unfoldable pub month_line : ℕ → ℕ → CashSums → Text
unfolding row_line bold fdate month_end month_name fmt_zero cr_marked join txt
month_line y m s = row_line (
    fdate (month_end y m)
    ∷ []
    ∷ bold (cat (txt "Month total — " ∷ month_name y m ∷ txt " · closing balance" ∷ []))
    ∷ cells (λ x. bold (fmt_zero x)) s.mdr
    ∷ cells (λ x. bold (fmt_zero x)) s.mcr
    ∷ cells (λ x. bold (cr_marked x)) s.bal
    ∷ [])

-- The loop over the months; a month without entries is left out.
unfoldable pub cash_months :
    Book → List Text → List Voucher → List (ℕ × ℕ) → Page × Balances → Result (Page × Balances)
unfolding cash_rows_of month_line year_of month_of
cash_months b names vchs [] s = ok s
cash_months b names vchs ((y, m) ∷ more) (out, bal) =
    elim (keep (λ (w : Voucher). (year_of w.date == y) && (month_of w.date == m)) vchs) [
      | [] ↦ cash_months b names vchs more (out, bal)
      | w ∷ ws ↦ do
        s ←
            cash_rows_of b names (w ∷ ws)
              (record { out = out; bal = bal; mdr = nil_each names; mcr = nil_each names })
        cash_months b names vchs more (s.out ++ (month_line y m s ∷ []), s.bal)
    ]

unfoldable pub opening_line : Balances → Text
unfolding row_line fdate fmt cr_marked fy_start join txt
opening_line bal = row_line (
    fdate fy_start
    ∷ []
    ∷ txt "Opening balance b/f"
    ∷ cells (λ x. fmt (dr_of x)) bal
    ∷ cells (λ x. fmt (cr_of x)) bal
    ∷ cells cr_marked bal
    ∷ [])

unfoldable pub cash_intro : List Account → Text
unfolding txt
cash_intro accts = cat (
    txt
      "Every receipt and every payment of cash and of the bank, with the note of each entry: money in on the left, money out on the right, a column for each. "
    ∷ (if some_of (λ a. is_kind a.kind gollak) accts
        then txt
            "A gollak count is cash received on the day it is counted, in the gollak's own column; emptying the gollak moves it to the cash box or the bank. "
        else [])
    ∷ txt
        "Money moved between the cash box and the bank stands on both sides — out of one, into the other. Each month that had entries ends with its totals and the balance of each; the cash balance is what the cash box must hold, the bank balance is the bank's."
    ∷ [])

-- The assertion at the end: the balances are the accounts' own.
unfoldable pub cash_agrees : List Account → Balances → Bool
unfolding balance_of
cash_agrees accts bal = every (λ a. eqb_ℤ (balance_of a.name bal) a.closing) accts

unfoldable pub cash_top : Book → List Account → Text → Page
unfolding cash_heads cash_intro opening_line head_line table fdate fy_start fy_end txt
cash_top b accts heading =
    (cat (txt "### " ∷ heading ∷ [])
      ∷ []
      ∷ head_line b.name (cat (fdate fy_start ∷ txt " to " ∷ fdate fy_end ∷ []))
      ∷ []
      ∷ cash_intro accts
      ∷ []
      ∷ [])
    ++ table (cash_heads accts)
        (l ∷ l ∷ l ∷ (map (λ a. r) accts ++ map (λ a. r) accts ++ map (λ a. r) accts)) []
    ++ (opening_line (map (λ a. (a.name, a.opening)) accts) ∷ [])

unfoldable pub cash_end : Balances → Page
unfolding cr_marked join txt
cash_end bal =
    []
    ∷ cat (
        txt "*On 31 Mar 2026: "
        ∷ join (txt " · ") (map (λ x. cat (x.0 ∷ txt " ₹" ∷ cr_marked x.1 ∷ [])) bal)
        ∷ txt
            " — the same as the closing balances in the ledgers of the printed book (its section 2).*"
        ∷ [])
    ∷ []
    ∷ []

-- `cash_book(b, names, heading)`
unfoldable pub cash_book : Book → List Text → Text → Result Page
unfolding accounts_of cash_top cash_months cash_agrees cash_end fy_months mem
cash_book b names heading = do
  accts ← accounts_of names b.accounts
  let vchs = keep (λ (w : Voucher). some_of (λ x. mem x.0 names) w.lines) b.vouchers
  let start : Page × Balances =
      (cash_top b accts heading, map (λ (a : Account). (a.name, a.opening)) accts)
  s ← cash_months b names vchs fy_months start
  guard (cash_agrees accts s.1) cash_book_differs
  ok (s.0 ++ cash_end s.1)

-- The names of the accounts of one kind, in the book's order.
abbrev pub names_of_kind : Kind → List Account → List Text
names_of_kind k accounts = map (λ a. a.name) (keep (λ (a : Account). is_kind a.kind k) accounts)

-- `sec_books(b)`
unfoldable pub sec_books : Book → Result Page
unfolding sec_daybook cash_book join txt
sec_books b = do
  days ← sec_daybook b
  let names =
      names_of_kind cash b.accounts
      ++ names_of_kind gollak b.accounts
      ++ names_of_kind bank b.accounts
  book ← cash_book b names (txt "2. Cash Book — " ++ join (txt " and ") names)
  ok (days ++ book)
