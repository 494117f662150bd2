-- ===== src/Examples/Checks.antt =====
-- The theorems on the checker at the shop.
use rukka_folio.Prelude.{
  ◌≡◌, ◌≤◌, refl, true, false, List, [], ◌∷◌, ◌++◌, pos, negsuc, ◌+ℤ◌, Text, txt, same, mem, arith,
  map, All, every, and-left, and-right, starts_with,
}
use rukka_folio.Dates.{D, fy_start, fy_end}
use rukka_folio.Kinds.{is_equity_kind, kind_info, is_money_kind}
use rukka_folio.Money.{fmt_zero, fmt_with}
use rukka_folio.Fault.{Result, ok, err, ◌>>=◌}
use rukka_folio.Vtypes.{word_of, plain_vtype}
use rukka_folio.Book.{Line, Voucher, account, new_book, find_account}
use rukka_folio.Posting.{post, reset}
use rukka_folio.Queries.{balance_at, movement, equity_parts, result_to}
use rukka_folio.Report.Markdown.{Page, l, r, table}
use rukka_folio.Report.Ageing.{fifo_open_items, buckets}
use rukka_folio.Report.Daybook.{daybook_rows}
use rukka_folio.Report.Daybook.Page.{sec_daybook}
use rukka_folio.Check.Cells.{strip, paise}
use rukka_folio.Check.ReadBack.{paise-fmt_with}
use rukka_folio.Check.Tables.{tables_from}
use rukka_folio.Check.Rows.{barless, All-barless}
use rukka_folio.Check.Printed.{cells_barless, IsCells-barless, IsAfter, IsCells, tables_from-table}
use rukka_folio.Check.NamesRead.{IsName, shows, IsName-shows}
use rukka_folio.Check.Entries.{day_book}
use rukka_folio.Check.EntryRead.{IsReadable}
use rukka_folio.Check.Book.{Head, fill, bal_at, mov, equity_words, equity_parts_on, result_on}
use rukka_folio.Check.Book.Refined.{head_from, read_of, fill-post}
use rukka_folio.Check.Book.Agrees.{fill-answers}
use rukka_folio.Check.Book.MakeUp.{IsWorded, fill-make_up}
use rukka_folio.Check.Amounts.{fmt_in, fmt_in-fmt_zero}
use rukka_folio.Check.Ageing.{open_items, bucketed, open_items-fifo_open_items}
use rukka_folio.Check.DayBookRead.{day_book-sec_daybook}
use rukka_folio.Examples.Sample.{
  sold, received, paid_rent, taken_out, shop, posted, shop-valid, shop-posted, shop-dates,
}
use rukka_folio.Examples.Shop.{paid_customer}

paise-fmt_with_example : paise (fmt_with true false (negsuc 12345649)) ≡ ok (negsuc 12345649)
paise-fmt_with_example = paise-fmt_with true false (negsuc 12345649)

fmt_in-fmt_zero_example : fmt_in 12345650 ≡ fmt_zero (pos 12345650)
fmt_in-fmt_zero_example = fmt_in-fmt_zero 12345650

open_items-fifo_open_items_example :
    (open_items 739700 (head_from paid_customer) ≡ fifo_open_items paid_customer 739700)
    × (bucketed fy_end (open_items fy_end (head_from paid_customer))
        ≡ buckets (fifo_open_items paid_customer fy_end))
open_items-fifo_open_items_example = open_items-fifo_open_items paid_customer 739700

abbrev dated : List Text
dated = txt "01 Apr 2025" ∷ txt "1,500" ∷ []

heads-IsCells : IsCells (txt "Date" ∷ txt "Amount ₹" ∷ [])
unfolding txt barless
heads-IsCells = All-barless (txt "Date" ∷ txt "Amount ₹" ∷ []) refl

dated-IsCells : IsCells dated
unfolding txt barless
dated-IsCells = All-barless dated refl

blank-IsAfter : IsAfter ([] ∷ [])
unfolding starts_with txt
blank-IsAfter = refl

tables_from-table_example :
    tables_from 4 0
      (table (txt "Date" ∷ txt "Amount ₹" ∷ []) (l ∷ r ∷ []) (dated ∷ dated ∷ []) ++ ([] ∷ []))
    ≡ (do
      more ← tables_from 8 0 ([] ∷ [])
      ok (
          (4, map strip (txt "Date" ∷ txt "Amount ₹" ∷ []) ∷ map (map strip) (dated ∷ dated ∷ []))
          ∷ more))
tables_from-table_example =
    tables_from-table (txt "Date") (txt "Amount ₹" ∷ []) l (r ∷ []) (dated ∷ dated ∷ []) ([] ∷ [])
      heads-IsCells (dated-IsCells, (dated-IsCells, tt)) blank-IsAfter 4

fill-post_example :
    fill (map read_of shop.vouchers) (map head_from (map reset shop.accounts))
    ≡ ok (map head_from posted.accounts)
fill-post_example = fill-post shop posted shop-valid shop-posted

abbrev shop_heads : List Head
shop_heads = map head_from posted.accounts

fill-answers_example :
    (bal_at shop_heads (txt "Cash A/c") 739465 ≡ balance_at posted (txt "Cash A/c") 739465)
    × (mov shop_heads (txt "Cash A/c") 739425 739465
        ≡ movement posted (txt "Cash A/c") 739425 739465)
fill-answers_example =
    fill-answers shop posted shop_heads (txt "Cash A/c") 739425 739465 shop-valid shop-posted
      (fill-post shop posted shop-valid shop-posted)

shop-IsWorded : All IsWorded posted.accounts
unfolding post new_book account txt same kind_info equity_words mem is_equity_kind
shop-IsWorded = (
  record { equity = refl; income_word = refl; expense_word = refl },
  (
    record { equity = refl; income_word = refl; expense_word = refl },
    (
      record { equity = refl; income_word = refl; expense_word = refl },
      (
        record { equity = refl; income_word = refl; expense_word = refl },
        (
          record { equity = refl; income_word = refl; expense_word = refl },
          (record { equity = refl; income_word = refl; expense_word = refl }, tt),
        ),
      ),
    ),
  ),
)

fill-make_up_example :
    (equity_parts_on shop_heads 739480 ≡ equity_parts posted 739480)
    × (result_on shop_heads 739480 ≡ result_to posted 739480)
fill-make_up_example =
    fill-make_up shop posted shop_heads 739480 shop-valid shop-dates shop-posted shop-IsWorded
      (fill-post shop posted shop-valid shop-posted)

abbrev rows_or : Result (List (List Text)) → List (List Text)
rows_or (ok rows) = rows
rows_or (err e) = []

abbrev shop_rows : List (List Text)
shop_rows = rows_or (daybook_rows posted)

shop-rows : daybook_rows posted ≡ ok shop_rows
unfolding daybook_rows post new_book account txt same find_account is_money_kind word_of plain_vtype
shop-rows = refl

rows-IsCells : All IsCells shop_rows
unfolding daybook_rows post new_book account txt same find_account is_money_kind word_of plain_vtype
    cells_barless ◌+ℤ◌
rows-IsCells = IsCells-barless shop_rows refl

named : (ls : List Line) → every (λ l. shows l.0) ls ≡ true → All (λ l. IsName l.0) ls
named [] h = tt
named (x ∷ ls) h =
    (IsName-shows x.0 (and-left (shows x.0) _ h), named ls (and-right (shows x.0) _ h))

-- The entries of the shop have no number and no note yet.
readable :
    (w : Voucher)
    → every (λ l. shows l.0) w.lines ≡ true
    → strip w.vid ≡ w.vid
    → strip w.narration ≡ w.narration
    → fy_start ≤ w.date
    → w.date ≤ fy_end
    → IsReadable w
readable w names number note from up_to = record {
  names = named w.lines names;
  number = number;
  note = note;
  from = from;
  up_to = up_to;
}

shop-IsReadable : All IsReadable shop.vouchers
unfolding new_book shows txt strip fy_start fy_end D
shop-IsReadable = (
  readable sold refl refl refl (omega arith) (omega arith),
  (
    readable received refl refl refl (omega arith) (omega arith),
    (
      readable paid_rent refl refl refl (omega arith) (omega arith),
      (readable taken_out refl refl refl (omega arith) (omega arith), tt),
    ),
  ),
)

abbrev page_or : Result Page → Page
page_or (ok page) = page
page_or (err e) = []

abbrev shop_page : Page
shop_page = page_or (sec_daybook posted)

shop-page : sec_daybook posted ≡ ok shop_page
unfolding sec_daybook daybook_rows post new_book account txt same find_account is_money_kind word_of
    plain_vtype
shop-page = refl

day_book-sec_daybook_example :
    (do entries ← day_book shop_page; fill entries (map head_from (map reset shop.accounts)))
    ≡ ok (map head_from posted.accounts)
day_book-sec_daybook_example =
    day_book-sec_daybook shop posted shop_rows shop_page shop-valid shop-IsReadable shop-posted
      shop-rows rows-IsCells shop-page
