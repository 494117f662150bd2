-- ===== src/Report/BankExtract.antt =====
-- `sec_bank_extract` of docs/accounting/reference-books/build.py: a month of the bank's statement, with
-- the account that answers each line.
use rukka_folio.Prelude.{
  ℕ, ◌-◌, not, ◌&&◌, List, [], ◌∷◌, ◌++◌, if◌then◌else◌, ◌==◌, ℤ, ◌+ℤ◌, ◌-ℤ◌, is_neg, abs, map,
  keep, length, Text, txt, cat, join, same, str_of, none, some,
}
use rukka_folio.Dates.{D, fdate, month_name, month_end, year_of, month_of}
use rukka_folio.Money.{fmt, fmt_zero}
use rukka_folio.Fault.{Result, ok, ◌>>=◌, or_key_error}
use rukka_folio.Book.{Row, Book, Line, Voucher, find_account}
use rukka_folio.Queries.{balance_on}
use rukka_folio.Report.Markdown.{Page, l, r, table, bold, head_line}

-- `fmt(abs(bal), show_zero=True) + (" Cr" if bal < 0 else "")`
unfoldable pub cr_marked : ℤ → Text
unfolding fmt_zero txt
cr_marked bal = fmt_zero (abs bal) ++ (if is_neg bal then txt " Cr" else [])

-- `classified`, of the lines on other accounts than the bank's.
unfoldable pub classified : List Line → Text
unfolding fmt join txt
classified others =
    if length others == 1
    then join [] (map (λ x. x.0) others)
    else join (txt "<br>") (map (λ x. cat (x.0 ∷ txt " ₹" ∷ fmt (abs x.1) ∷ [])) others)

-- `vch.stmt or vch.narration`
abbrev pub printed_as : Voucher → Text
printed_as w = elim w.stmt [ none ↦ w.narration | some [] ↦ w.narration | some (c ∷ s) ↦ c ∷ s ]

-- The rows of the loop, with the running balance, and the balance that they leave.
unfoldable pub extract_rows : Text → ℕ → ℕ → List Row → ℤ → List (List Text) × ℤ
unfolding year_of month_of fdate fmt cr_marked classified
extract_rows bank y m [] bal = ([], bal)
extract_rows bank y m (x ∷ rest) bal =
    let after = bal +ℤ (x.dr -ℤ x.cr) in
    let skipped = extract_rows bank y m rest bal in
    let (rows, last) = extract_rows bank y m rest after in
    let row =
      fdate x.date
      ∷ printed_as x.vch
      ∷ fmt x.cr
      ∷ fmt x.dr
      ∷ cr_marked after
      ∷ classified (keep (λ k. not (same k.0 bank)) x.vch.lines)
      ∷ x.vch.vid
      ∷ [] in
    if (year_of x.date == y) && (month_of x.date == m) then (row ∷ rows, last) else skipped

unfoldable pub extract_page : Book → ℕ → Text → ℕ → ℕ → ℤ → List (List Text) × ℤ → Page
unfolding head_line table bold fdate month_name month_end cr_marked D txt str_of
extract_page b num bank y m opening (rows, closing) =
    (cat (
        txt "#### 3."
        ∷ str_of num
        ∷ txt " Bank statement → entries — "
        ∷ bank
        ∷ txt ", "
        ∷ month_name y m
        ∷ [])
      ∷ []
      ∷ head_line b.name (month_name y m)
      ∷ []
      ∷ cat (
          txt
            "How the book is kept from the bank: every line of the month's statement is answered with one question — where did the money come from, or where did it go? The bank's running balance is the balance of "
          ∷ bank
          ∷ txt " in the books."
          ∷ [])
      ∷ []
      ∷ [])
    ++ table
        (txt "Date"
          ∷ txt "As the bank printed it"
          ∷ txt "Withdrawal ₹"
          ∷ txt "Deposit ₹"
          ∷ txt "Balance ₹"
          ∷ txt "Which account"
          ∷ txt "No."
          ∷ [])
        (l ∷ l ∷ r ∷ r ∷ r ∷ l ∷ l ∷ [])
        ((fdate (D y m 1) ∷ txt "Opening balance" ∷ [] ∷ [] ∷ cr_marked opening ∷ [] ∷ [] ∷ [])
          ∷ (rows
              ++ ((fdate (month_end y m)
                    ∷ bold (txt "Closing balance")
                    ∷ []
                    ∷ []
                    ∷ bold (cr_marked closing)
                    ∷ []
                    ∷ []
                    ∷ [])
                  ∷ [])))
    ++ ([] ∷ [])

-- `sec_bank_extract(b, num)`, for the account and the month of `b.bank_extract`.
unfoldable pub sec_bank_extract : Book → ℕ → Text → ℕ → ℕ → Result Page
unfolding find_account extract_rows extract_page balance_on D
sec_bank_extract b num bank y m = do
  a ← or_key_error (find_account bank b.accounts)
  let opening = balance_on (D y m 1 - 1) a
  ok (extract_page b num bank y m opening (extract_rows bank y m a.rows opening))
