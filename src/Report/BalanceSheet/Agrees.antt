-- ===== src/Report/BalanceSheet/Agrees.antt =====
-- `sec_balance_sheet` of a book with one owner's account returns its page.
use rukka_folio.Prelude.{
  All, Text, ℕ, some, eq→eqb, ◌≡◌, ◌∙◌, true, List, [], ℤ, pos, neg, ◌+ℤ◌, int_laws, sum_by,
}
use rukka_folio.Kinds.{income, expense, is_kind, is_equity_kind}
use rukka_folio.Book.{Account, Book}
use rukka_folio.Dates.{fy_start, fy_end}
use rukka_folio.Fault.{ok}
use rukka_folio.Queries.{balance_on, movement_on, equity_parts}
use rukka_folio.Queries.Totals.{closings-opening_total}
use rukka_folio.Queries.Trial.{balance_on-post}
use rukka_folio.Close.{result_of, result_name, owner_account}
use rukka_folio.Close.Balances.{Balances, balance_of}
use rukka_folio.Close.Nil.{CanClose}
use rukka_folio.Close.Done.{carried_to, post_close_balances-carried}
use rukka_folio.Close.Carried.{result_of-heads, carried-equity}
use rukka_folio.Report.Markdown.{Page}
use rukka_folio.Report.Position.Sides.{sum-keep}
use rukka_folio.Report.Position.MakeUp.{equity-balances, post-From, sum_by-neg}
use rukka_folio.Report.YearStatement.{year_result}
use rukka_folio.Report.BalanceSheet.{
  own_close, own_after, own_part, own_rows, sheet_page, sec_balance_sheet,
}
use rukka_folio.Report.BalanceSheet.Sheet.{empty_sheet, sheet_rows}
use rukka_folio.Report.BalanceSheet.Partners.{PartnerSums}
use rukka_folio.Report.BalanceSheet.Sums.{closing_when, closing_parts, when-All, sheet_rows-sides}
use rukka_folio.Queries.Posted.{IsPosted}

-- The year's result, as the close makes it.
pub year_result-result_of : (accounts : List Account) → year_result accounts ≡ result_of accounts
unfolding year_result
year_result-result_of accounts =
    rw
      (
        sum-keep (λ (a : Account). is_kind a.kind income) (λ a. neg a.closing),
        sum-keep (λ (a : Account). is_kind a.kind expense) (λ a. a.closing),
        sum_by-neg (λ (a : Account). is_kind a.kind income) (λ a. a.closing) accounts,
        result_of-heads accounts,
      )
      (omega int_laws)

module _ (b b' : Book) (h : IsPosted b b') where
  pub closings-nil : sum_by (λ a. a.closing) b'.accounts ≡ pos 0
  closings-nil = closings-opening_total b b' h.valid h.posted ∙ h.openings

  -- The own money at the close is the balance of the equity accounts, with the result.
  pub own_close-equity :
      (result : ℤ)
      → own_close b' result ≡ neg (closing_when (λ a. is_equity_kind a.kind) b'.accounts) +ℤ result
  unfolding own_close equity_parts
  own_close-equity result =
      let year = equity-balances fy_end b'.accounts (post-From b b' h.from h.posted) in
      let last =
        when-All (balance_on fy_end) (λ a. a.closing) (λ a. is_equity_kind a.kind) b'.accounts
          (balance_on-post fy_end b b' h.up_to h.posted) in
      rw
        (
          sum-keep (λ (a : Account). is_equity_kind a.kind) (λ a. a.opening),
          sum-keep (λ (a : Account). is_equity_kind a.kind)
              (λ a. (movement_on fy_start fy_end a).1),
          sum-keep (λ (a : Account). is_equity_kind a.kind)
              (λ a. (movement_on fy_start fy_end a).0),
        )
        (omega (int_laws, year, last))

  -- What the book has and will get is what it will give, its funds, and its own money.
  pub sheet-own_close :
      (sheet_rows b'.accounts empty_sheet).tl +ℤ own_close b' (year_result b'.accounts) +ℤ pos 0
      ≡ (sheet_rows b'.accounts empty_sheet).ta
  sheet-own_close =
      rw (own_close-equity (year_result b'.accounts), year_result-result_of b'.accounts)
        (omega (
          int_laws,
          sheet_rows-sides b'.accounts empty_sheet,
          closing_parts b'.accounts,
          closings-nil,
          result_of-heads b'.accounts,
        ))

  module _ (own : Text) (o : Account) (c : CanClose b' (result_name b'.style) own o)
      (equity : is_equity_kind o.kind ≡ true) (bal : Balances)
      (carried : All (λ a. balance_of a.name bal ≡ carried_to b' own a) b'.accounts) where
    own_after-own_close : own_after bal b'.accounts ≡ own_close b' (year_result b'.accounts)
    unfolding own_after
    own_after-own_close =
        let after =
          when-All (λ a. balance_of a.name bal) (carried_to b' own) (λ a. is_equity_kind a.kind)
            b'.accounts carried in
        rw
          (
            sum-keep (λ (a : Account). is_equity_kind a.kind) (λ a. balance_of a.name bal),
            own_close-equity (year_result b'.accounts),
            year_result-result_of b'.accounts,
          )
          (omega (int_laws, after, carried-equity b' (result_name b'.style) own o c equity))

-- For a book that `post` made of validated entries of the year from openings that balance, with no
-- partners, distinct account names, none of them the result account's, and an owner's account that is
-- own money and no drawings or share-out account, `sec_balance_sheet` returns its page: the own money
-- after the close is start, put in, taken out and result, and the two sides have one total.
pub sec_balance_sheet_returns :
    (b b' : Book) (own : Text) (o : Account) (num : ℕ)
    → IsPosted b b'
    → CanClose b' (result_name b'.style) own o
    → is_equity_kind o.kind ≡ true
    → b'.partners ≡ []
    → owner_account b'.accounts ≡ some own
    → (page : Page) × (sec_balance_sheet b' (year_result b'.accounts) num ≡ ok page)
unfolding sec_balance_sheet own_part
sec_balance_sheet_returns b b' own o num h c equity alone owner =
    let (bal, closed, carried) = post_close_balances-carried b' own o c alone owner in
    let first = eq→eqb _ _ (own_after-own_close b b' h own o c equity bal carried) in
    let second = eq→eqb _ _ (sheet-own_close b b' h) in
    let result = year_result b'.accounts in
    let q : PartnerSums = record {
      page = [];
      eq = own_rows b' result;
      sheet = sheet_rows b'.accounts empty_sheet;
      owed = pos 0;
    } in
    (sheet_page b' result num q, rw (closed, first, alone, second))
