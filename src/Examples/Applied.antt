-- ===== src/Examples/Applied.antt =====
-- The theorems on the book, its posting and its close at the shop.
use rukka_folio.Prelude.{
  map, Text, ◌++◌, ◌+◌, ◌*◌, ◌<◌, ◌≤◌, ◌≡◌, ◌≢◌, ◌⊎◌, ◌↔◌, true, false, List, [], ◌∷◌, All, pos,
  negsuc, ◌+ℤ◌, ◌-ℤ◌, sum_by, txt, same, some, arith,
}
use rukka_folio.Dates.{Date, next_branch_day, D, fy_start, fy_end}
use rukka_folio.Money.{half_up}
use rukka_folio.Money.Rounding.{half_up_nearest}
use rukka_folio.Fault.{ok, err, make_up_differs}
use rukka_folio.Book.{Book, account, new_book}
use rukka_folio.Posting.{post, opening_total, dr_total, cr_total, sort_vouchers}
use rukka_folio.Posting.Known.{post_returns}
use rukka_folio.Posting.Ledger.{Running, post-IsRunning}
use rukka_folio.Posting.Order.{IsOrdered, sort_vouchers-IsOrdered}
use rukka_folio.Queries.{balance_on, movement_on}
use rukka_folio.Queries.Totals.{balances-opening_total}
use rukka_folio.Queries.Trial.{UpTo, trial_balance-openings, balance_on-post}
use rukka_folio.Queries.Periods.{balance_on-movement_on}
use rukka_folio.Appropriation.{shares_of}
use rukka_folio.Appropriation.Exact.{interest_total, share_total, appropriate_total}
use rukka_folio.Appropriation.Fair.{Near, shares_of-Near}
use rukka_folio.Close.Balances.{Balances, balance_of, post_close_balances}
use rukka_folio.Close.Done.{carried_to, post_close_balances-carried}
use rukka_folio.Report.Markdown.{Page}
use rukka_folio.Report.LedgerTable.{Labels, LedgerPage, opening_of, ledger_table}
use rukka_folio.Report.LedgerTable.Columns.{Carries, ledger_table-Carries}
use rukka_folio.Report.Ageing.{AgeingRow, settle_items, ageing_rows}
use rukka_folio.Report.Ageing.Fifo.{Ended, settle_items-Ended, ageing_rows_returns}
use rukka_folio.Report.Position.{own_money, net_position, position_table}
use rukka_folio.Report.Position.MakeUp.{
  fund_debits, own_money-net_position, position_table-fund_debits,
}
use mathlib.Core.List.{Perm}
use rukka_folio.Dates.Branch.{FirstOpen, next_branch_day-FirstOpen}
use rukka_folio.Queries.Finalized.{finalize-balances}
use rukka_folio.Report.Statement.{statement_table, closing_line}
use rukka_folio.Report.Statement.Closing.{closing_of, statement_table-closing}
use rukka_folio.Report.Daybook.{daybook_rows}
use rukka_folio.Report.Daybook.Rows.{number_cell, daybook_rows-numbers}
use rukka_folio.Examples.Sample.{
  shop-finished, finished, cash_account, customer, shop, posted, shop-valid, shop-posted,
  shop-openings, shop-dates, sold, paid_rent, capitals, two_partners, two_parts, parts-made,
}
use rukka_folio.Examples.Shop.{
  cash_rows, owner_posted, paid_customer, shop-CanClose, shop-alone, shop-owner,
}

post_close_balances-carried_example :
    (bal : Balances) × (post_close_balances posted ≡ ok bal)
    × All (λ a. balance_of a.name bal ≡ carried_to posted (txt "Capital A/c") a) posted.accounts
post_close_balances-carried_example =
    post_close_balances-carried posted (txt "Capital A/c") owner_posted shop-CanClose shop-alone
      shop-owner

own_money-net_position_example :
    own_money posted fy_end
    ≡ net_position fy_end posted.accounts
      +ℤ (fund_debits fy_end posted.accounts +ℤ fund_debits fy_end posted.accounts)
own_money-net_position_example =
    own_money-net_position shop posted fy_end shop-valid shop-dates shop-openings shop-posted

position_table-fund_debits_example :
    ((fund_debits fy_end posted.accounts ≡ pos 0)
      × ((page : Page) × (position_table posted fy_end ≡ ok page)))
    ⊎ ((fund_debits fy_end posted.accounts ≢ pos 0)
        × (position_table posted fy_end ≡ err make_up_differs))
position_table-fund_debits_example =
    position_table-fund_debits shop posted fy_end shop-valid shop-dates shop-openings shop-posted

trial_balance-openings_example :
    (dr_total posted.accounts ≡ cr_total posted.accounts) ↔ (opening_total shop.accounts ≡ pos 0)
trial_balance-openings_example = trial_balance-openings shop posted shop-valid shop-posted

post_returns_example : (b : Book) × (post shop ≡ ok b)
post_returns_example = post_returns shop shop-valid

post-IsRunning_example : All (λ a. Running a.opening a.rows a.closing) posted.accounts
post-IsRunning_example = post-IsRunning shop posted shop-posted

balances-opening_total_example :
    sum_by (balance_on 739440) posted.accounts ≡ opening_total shop.accounts
balances-opening_total_example = balances-opening_total shop posted 739440 shop-valid shop-posted

appropriate_total_example : pos (interest_total two_parts + share_total two_parts) ≡ pos 202001
appropriate_total_example =
    appropriate_total capitals two_partners (pos 202001) two_parts parts-made

shares_of-Near_example : Near 2 112001 8 (5 ∷ 3 ∷ []) (shares_of 112001 (5 ∷ 3 ∷ []))
shares_of-Near_example = shares_of-Near 112001 (5 ∷ 3 ∷ []) (omega arith)

shop-UpTo : All (λ a. UpTo fy_end a.rows) posted.accounts
unfolding post new_book account txt same fy_end D
shop-UpTo = (
  (omega arith, (omega arith, (omega arith, tt))),
  (
    (omega arith, (omega arith, tt)),
    (tt, ((omega arith, tt), ((omega arith, tt), ((omega arith, tt), tt)))),
  ),
)

ageing_rows_returns_example : (rows : List AgeingRow) × (ageing_rows posted.accounts ≡ ok rows)
ageing_rows_returns_example = ageing_rows_returns posted.accounts shop-UpTo

abbrev plain_labels : Labels
plain_labels = record {
  bf = txt "b/f";
  cd = txt "c/d";
  bd = txt "b/d";
  total = txt "Total";
  show_bd = true;
  narr = false;
}

ledger_table-Carries_example :
    (p : LedgerPage) × (ledger_table cash_account cash_rows fy_start fy_end plain_labels [] ≡ ok p)
    × (p.opening ≡ opening_of cash_account fy_start)
    × Carries p
ledger_table-Carries_example =
    ledger_table-Carries cash_account cash_rows fy_start fy_end plain_labels []

shop-early : All (λ w. w.date ≤ 739480) shop.vouchers
unfolding new_book
shop-early = (omega arith, (omega arith, (omega arith, (omega arith, tt))))

balance_on-post_example : All (λ a. balance_on 739480 a ≡ a.closing) posted.accounts
balance_on-post_example = balance_on-post 739480 shop posted shop-early shop-posted

settle_items-Ended_example :
    Ended (settle_items 4 (pos 500) ((739400, negsuc 199) ∷ (739410, negsuc 899) ∷ []))
settle_items-Ended_example =
    settle_items-Ended 4 (pos 500) ((739400, negsuc 199) ∷ (739410, negsuc 899) ∷ []) (omega arith)

balance_on-movement_on_example :
    balance_on 739440 paid_customer
    ≡ balance_on 739410 paid_customer
      +ℤ ((movement_on 739411 739440 paid_customer).0
          -ℤ (movement_on 739411 739440 paid_customer).1)
balance_on-movement_on_example = balance_on-movement_on 739410 739440 (omega arith) paid_customer

sort_vouchers-IsOrdered_example :
    IsOrdered (sort_vouchers (paid_rent ∷ sold ∷ []))
    × Perm (sort_vouchers (paid_rent ∷ sold ∷ [])) (paid_rent ∷ sold ∷ [])
sort_vouchers-IsOrdered_example = sort_vouchers-IsOrdered (paid_rent ∷ sold ∷ [])

half_up_nearest_example : (2 * 7 * half_up 25 7 ≤ 2 * 25 + 7) × (2 * 25 < 2 * 7 * half_up 25 7 + 7)
half_up_nearest_example = half_up_nearest 25 7 (omega arith)

next_branch_day-FirstOpen_example : FirstOpen 739478 (next_branch_day 739478)
next_branch_day-FirstOpen_example = next_branch_day-FirstOpen 739478

finalize-balances_example :
    ((d : Date) → sum_by (balance_on d) finished.accounts ≡ pos 0)
    × All (λ a. Running a.opening a.rows a.closing) finished.accounts
finalize-balances_example = finalize-balances shop finished shop-finished

statement_table-closing_example :
    (out : Page) × (statement_table customer cash_rows fy_start fy_end [] true
      ≡ ok (
          out
          ++ (closing_line customer fy_end true (closing_of customer cash_rows fy_start []) ∷ [])))
statement_table-closing_example = statement_table-closing customer cash_rows fy_start fy_end [] true

daybook_rows-numbers_example :
    (rows : List (List Text)) × (daybook_rows shop ≡ ok rows)
    × (map number_cell rows ≡ map (λ w. some w.vid) shop.vouchers)
daybook_rows-numbers_example = daybook_rows-numbers shop shop-valid
