-- ===== src/Examples/Pages.antt =====
-- The theorems on the printed pages at the shop and at the trust.
use rukka_folio.Prelude.{
  ◌≡◌, ◌≢◌, ◌⊎◌, refl, true, [], ◌∷◌, pos, negsuc, ◌+ℤ◌, ◌-ℤ◌, txt, same, arith,
}
use rukka_folio.Dates.{D}
use rukka_folio.Fault.{ok, err}
use rukka_folio.Book.{Account, account, new_book, has_account}
use rukka_folio.Posting.{post, opening_total}
use rukka_folio.Close.Lines.{UniqueNames}
use rukka_folio.Report.Markdown.{Page}
use rukka_folio.Dates.{month_end}
use rukka_folio.Report.Chart.{sec_chart}
use rukka_folio.Report.Chart.Opens.{sec_chart-opening_total}
use rukka_folio.Report.Month.{month_page, month_sums, sec_month}
use rukka_folio.Report.Month.Sides.{sec_month_returns}
use rukka_folio.Report.YearStatement.{year_result}
use rukka_folio.Report.BalanceSheet.{sec_balance_sheet}
use rukka_folio.Report.BalanceSheet.Agrees.{sec_balance_sheet_returns}
use rukka_folio.Report.CarryForward.{sec_carry_forward}
use rukka_folio.Report.CarryForward.Sides.{sec_carry_forward_returns}
use rukka_folio.Report.Trial.{trial_page, trial_rows, no_trial, sec_trial}
use rukka_folio.Report.Trial.Sides.{sec_trial_returns}
use rukka_folio.Fault.{chart_differs}
use rukka_folio.Book.{find_account}
use rukka_folio.Kinds.{is_money_kind}
use rukka_folio.Entry.{kind_passes}
use rukka_folio.Fault.{rp_differs}
use rukka_folio.Report.Receipts.{rp_page, sec_npo_rp}
use rukka_folio.Report.Receipts.Net.{contra_moved}
use rukka_folio.Report.Receipts.Agrees.{sec_npo_rp-contra_moved}
use rukka_folio.Money.{fmt_zero}
use rukka_folio.Report.BalanceSheet.Partners.{int_or}
use rukka_folio.Report.BalanceSheet.ReadBack.{int_or-fmt_zero}
use rukka_folio.Report.Closing.{sec_closing}
use rukka_folio.Report.Closing.Returns.{Prints, sec_closing-Prints}
use rukka_folio.Prelude.{neg}
use rukka_folio.Report.Family.{rows_on, pair_rows}
use rukka_folio.Report.Family.Pair.{PairSums, meet_all}
use rukka_folio.Report.Family.Summary.{day_amounts, same_days}
use rukka_folio.Report.Family.Meets.{meet_all-same_days}
use rukka_folio.Report.AppropriationPage.{percent_text}
use rukka_folio.Prelude.{Text, List}
use rukka_folio.Report.EntryKinds.{seen_keys}
use rukka_folio.Report.EntryKinds.Table.{seen_keys_returns}
use rukka_folio.Examples.Sample.{shop-valid}
use rukka_folio.Examples.Sample.{
  trust, trust_posted, trust_flows, trust-valid, trust-posted, trust-counted, customer, shop,
  posted, shop-valid, shop-posted, shop-openings, received,
}
use rukka_folio.Examples.Shop.{
  owner-equity, owner_posted, paid_customer, shop-CanClose, shop-IsPosted, shop-alone,
  shop-no_trust, shop-owner,
}

sec_chart-opening_total_example :
    ((opening_total shop.accounts ≡ pos 0) × ((page : Page) × (sec_chart shop ≡ ok page)))
    ⊎ ((opening_total shop.accounts ≢ pos 0) × (sec_chart shop ≡ err chart_differs))
sec_chart-opening_total_example = sec_chart-opening_total shop

sec_month_returns_example :
    sec_month posted 2025 10
    ≡ ok (
        month_page posted 2025 10
          (D 2025 10 1)
          (month_end 2025 10)
          (month_sums posted (D 2025 10 1) (month_end 2025 10)))
sec_month_returns_example =
    sec_month_returns shop posted 2025 10 shop-valid shop-posted (omega arith) (omega arith)
      (omega arith)

sec_balance_sheet_returns_example :
    (page : Page) × (sec_balance_sheet posted (year_result posted.accounts) 2 ≡ ok page)
sec_balance_sheet_returns_example =
    sec_balance_sheet_returns shop posted (txt "Capital A/c") owner_posted 2 shop-IsPosted
      shop-CanClose owner-equity shop-alone shop-owner

sec_carry_forward_returns_example : (page : Page) × (sec_carry_forward posted 3 ≡ ok page)
sec_carry_forward_returns_example =
    sec_carry_forward_returns shop posted (txt "Capital A/c") owner_posted 3 shop-IsPosted
      shop-CanClose owner-equity shop-alone shop-owner

sec_trial_returns_example :
    sec_trial posted ≡ ok (trial_page posted (trial_rows posted.accounts no_trial))
sec_trial_returns_example = sec_trial_returns shop posted shop-valid shop-openings shop-posted

trust_unique : UniqueNames trust_posted.accounts
unfolding post new_book account txt same has_account
trust_unique = (refl, (refl, (refl, (refl, tt))))

sec_npo_rp-contra_moved_example :
    ((contra_moved trust.accounts trust.vouchers ≡ pos 0)
      × (sec_npo_rp trust_posted 2 ≡ ok (rp_page trust_posted 2 trust_flows)))
    ⊎ ((contra_moved trust.accounts trust.vouchers ≢ pos 0)
        × (sec_npo_rp trust_posted 2 ≡ err rp_differs))
sec_npo_rp-contra_moved_example =
    sec_npo_rp-contra_moved trust trust_posted 2 trust_flows trust-valid trust-posted trust_unique
      trust-counted

deposited : contra_moved trust.accounts trust.vouchers ≡ negsuc 19999
unfolding contra_moved kind_passes find_account new_book account txt same is_money_kind ◌+ℤ◌
deposited = refl

int_or-fmt_zero_example : int_or (fmt_zero (negsuc 12345649)) ≡ ok (negsuc 12345649)
int_or-fmt_zero_example = int_or-fmt_zero (negsuc 12345649)

sec_closing-Prints_example : Prints (sec_closing posted)
sec_closing-Prints_example =
    sec_closing-Prints shop posted (txt "Capital A/c") owner_posted shop-IsPosted shop-CanClose
      owner-equity shop-alone shop-owner shop-no_trust

-- The same amount from the other side.
abbrev paying_customer : Account
paying_customer = record customer {
  rows =
      record {
        date = 739430;
        vid = [];
        vch = received;
        part = [];
        dr = pos 0;
        cr = pos 20000;
        bal = negsuc 19999;
      }
      ∷ [];
}

abbrev pair_start : PairSums
pair_start = record {
  rows = [];
  bal1 = pos 0;
  bal2 = pos 0;
  left = pair_rows (paying_customer ∷ []);
}

pair-same :
    same_days
      (day_amounts (λ y. y) (rows_on (paid_customer ∷ [])))
      (day_amounts neg (rows_on (paying_customer ∷ [])))
    ≡ true
unfolding same_days day_amounts ◌-ℤ◌ neg account
pair-same = refl

meet_all-same_days_example :
    (after : PairSums) × (meet_all (pair_rows (paid_customer ∷ [])) pair_start ≡ ok after)
    × (after.left ≡ [])
meet_all-same_days_example =
    meet_all-same_days (paid_customer ∷ []) (paying_customer ∷ []) pair_start pair-same refl

-- A rate of six per cent, and one of ten.
six_percent : percent_text 600 ≡ txt "6"
unfolding percent_text txt
six_percent = refl

ten_percent : percent_text 1000 ≡ txt "1E+1"
unfolding percent_text txt
ten_percent = refl

seen_keys_returns_example : (seen : List Text) × (seen_keys (shop ∷ trust ∷ []) ≡ ok seen)
seen_keys_returns_example = seen_keys_returns (shop ∷ trust ∷ []) (shop-valid, (trust-valid, tt))
