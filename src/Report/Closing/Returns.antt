-- ===== src/Report/Closing/Returns.antt =====
-- When the year-end section of a book is printed to its end.
use rukka_folio.Prelude.{Bool, keep, ◌≡◌, refl, true, false, ℕ, List, [], ◌∷◌, Text, some}
use rukka_folio.Dates.{fy_start, fy_end}
use rukka_folio.Kinds.{fund, is_kind, is_equity_kind}
use rukka_folio.Fault.{Result, ok, ◌>>=◌, >>=-eq-ok}
use rukka_folio.Book.{Account, Book}
use rukka_folio.Queries.Posted.{IsPosted}
use rukka_folio.Close.{close_entries, result_name, owner_account}
use rukka_folio.Close.Balances.{Balances, post_close_balances}
use rukka_folio.Close.Nil.{CanClose}
use rukka_folio.Close.Done.{post_close_balances-carried}
use rukka_folio.Report.Markdown.{Page}
use rukka_folio.Report.LedgerTable.Columns.{ledger_table-Carries}
use rukka_folio.Report.Trial.Sides.{sec_trial_returns}
use rukka_folio.Report.YearStatement.{year_result}
use rukka_folio.Report.CloseEntries.{
  fund_labels, fund_pages, sec_fund_statements, sec_close_entries,
}
use rukka_folio.Report.BalanceSheet.Agrees.{sec_balance_sheet_returns}
use rukka_folio.Report.CarryForward.Sides.{sec_carry_forward_returns}
use rukka_folio.Report.Closing.{is_npo, has_funds, has_partners, part_if, numbers, sec_closing}

-- The section is printed: no assertion in it fails, and no key is missing.
abbrev pub Prints : Result Page → Type 0
Prints r = (page : Page) × (r ≡ ok page)

pub Prints->>= :
    {X : Type 0} (first : Result X) (next : X → Result Page) (x : X)
    → first ≡ ok x
    → Prints (next x)
    → Prints (first >>= next)
Prints->>= first next x e (page, q) = (page, rw e q)

Prints-ok : (page : Page) → Prints (ok page)
Prints-ok page = (page, refl)

fund_pages-Prints : (accounts : List Account) → Prints (fund_pages accounts)
unfolding fund_pages
fund_pages-Prints [] = Prints-ok []
fund_pages-Prints (a ∷ rest) =
    let (p, q, opening, carries) = ledger_table-Carries a a.rows fy_start fy_end fund_labels [] in
    let (pages, more) = fund_pages-Prints rest in
    Prints->>= _ _ p q (Prints->>= _ _ pages more (Prints-ok _))

sec_fund_statements-Prints : (b : Book) (num : ℕ) → Prints (sec_fund_statements b num)
unfolding sec_fund_statements
sec_fund_statements-Prints b num =
    let (pages, e) = fund_pages-Prints (keep (λ a. is_kind a.kind fund) b.accounts) in
    Prints->>= _ _ pages e (Prints-ok _)

sec_close_entries-Prints :
    (b : Book) (num : ℕ) (bal : Balances)
    → post_close_balances b ≡ ok bal
    → Prints (sec_close_entries b num)
unfolding sec_close_entries post_close_balances
sec_close_entries-Prints b num bal closed =
    let (es, entries, rest) = >>=-eq-ok (close_entries b) _ closed in
    Prints->>= _ _ es entries (Prints->>= _ _ bal closed (Prints-ok _))

part_if-Prints : (c : Bool) (part : Result Page) → Prints part → Prints (part_if c part)
part_if-Prints true part h = h
part_if-Prints false part h = Prints-ok []

part_if-skipped : (c : Bool) (part : Result Page) → c ≡ false → part_if c part ≡ ok []
part_if-skipped true part h = cc
part_if-skipped false part h = refl

-- `sec_closing` prints the whole year-end section of a book that `post` made of validated entries of
-- the year from openings that balance, when the book is no trust's, has no partners and distinct account
-- names, none of them the result account's, and its owner's account is own money and no drawings or
-- share-out account: the assertions of the trial balance, of the close entries, of the balance sheet
-- and of the balances that are carried forward all hold.
pub sec_closing-Prints :
    (b b' : Book) (own : Text) (o : Account)
    → IsPosted b b'
    → CanClose b' (result_name b'.style) own o
    → is_equity_kind o.kind ≡ true
    → b'.partners ≡ []
    → owner_account b'.accounts ≡ some own
    → is_npo b'.style ≡ false
    → Prints (sec_closing b')
unfolding sec_closing
sec_closing-Prints b b' own o h c equity alone owner no_trust =
    let n = numbers b' in
    let result = year_result b'.accounts in
    let no_partners : has_partners b' ≡ false = rw alone refl in
    let (bal, closed, carried_to) = post_close_balances-carried b' own o c alone owner in
    let (funds, funds_ok) =
      part_if-Prints (has_funds b') _ (sec_fund_statements-Prints b' n.n_fund) in
    let (closes, closes_ok) = sec_close_entries-Prints b' n.n_close bal closed in
    let (sheet, sheet_ok) = sec_balance_sheet_returns b b' own o n.n_bs h c equity alone owner in
    let (carried, carried_ok) =
      sec_carry_forward_returns b b' own o n.n_cf h c equity alone owner in
    Prints->>= _ _ _ (sec_trial_returns b b' h.valid h.openings h.posted) (
      Prints->>= _ _ _ (part_if-skipped (is_npo b'.style) _ no_trust) (
        Prints->>= _ _ funds funds_ok (
          Prints->>= _ _ _ (part_if-skipped (has_partners b') _ no_partners) (
            Prints->>= _ _ closes closes_ok
              (Prints->>= _ _ sheet sheet_ok (Prints->>= _ _ carried carried_ok (Prints-ok _)))))))
