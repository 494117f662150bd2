-- ===== src/Report/CarryForward.antt =====
-- `carry_rows`, `has_drawings` and `sec_carry_forward` of docs/accounting/reference-books/build.py: what
-- opens the next year.
pub mod Sides
use rukka_folio.Prelude.{
  ℕ, Bool, true, false, not, ◌&&◌, List, [], ◌∷◌, ◌++◌, if◌then◌else◌, length, ◌==◌, map, ℤ, pos,
  neg, ◌+ℤ◌, eqb_ℤ, is_pos, is_nil, abs, keep, some_of, Text, txt, cat, join, str_of, Option, none,
  some,
}
use rukka_folio.Money.{fmt, fmt_zero}
use rukka_folio.Kinds.{drawings, fixed, partner, is_kind, is_bs_kind}
use rukka_folio.Fault.{Result, ok, ◌>>=◌, ◌>>◌, guard, carry_forward_differs}
use rukka_folio.Book.{Account, Partner, Book, Style, business, property, household, npo}
use rukka_folio.Close.Balances.{Balances, balance_of, post_close_balances}
use rukka_folio.Report.Markdown.{Page, l, r, c, table, bold, side_of, head_line}
use rukka_folio.Report.Position.{foot_notes}

-- A row of `carry_rows`: the account's name, its group and its balance.
pub record Carried : Type 0 where
  pub label : Text
  pub group : Text
  pub bal : ℤ

unfoldable pub carried_of : Balances → List Account → List Carried
carried_of pcb [] = []
carried_of pcb (a ∷ rest) =
    let more = carried_of pcb rest in
    let x = balance_of a.name pcb in
    if is_bs_kind a.kind && not (is_nil x)
    then record { label = a.name; group = a.group; bal = x } ∷ more
    else more

-- `carry_rows(b)`
unfoldable pub carry_rows : Book → Result (List Carried)
carry_rows b = do ok (carried_of (← post_close_balances b) b.accounts)

unfoldable pub has_drawings : Book → Bool
has_drawings b = some_of (λ a. is_kind a.kind drawings) b.accounts

-- `running`: the partners' accounts of a book that has no partners, with a balance.
unfoldable pub running_accounts : Book → Balances → List Account
unfolding balance_of
running_accounts b pcb =
    keep
      (λ a.
        is_kind a.kind partner && (length b.partners == 0 && not (is_nil (balance_of a.name pcb))))
      b.accounts

abbrev some_capital : Option Text → Bool
some_capital none = false
some_capital (some n) = true

abbrev running_how : List Account → Text
running_how [] = txt "the own money opens as one figure for each owner"
running_how (a ∷ rest) =
    let one = length rest == 0 in
    cat (
      txt "the own-money account opens as one figure, and "
      ∷ join (txt " and ") (map (λ x. x.name) (a ∷ rest))
      ∷ txt " — within own money — open"
      ∷ (if one then txt "s" else [])
      ∷ txt " at "
      ∷ (if one then txt "its" else txt "their")
      ∷ txt " own balance"
      ∷ (if one then [] else txt "s")
      ∷ [])

-- `how`
unfoldable pub carry_how : Book → Balances → Text
unfolding running_accounts join txt
carry_how b pcb =
    if not (length b.partners == 0)
    then (if some_of (λ p. some_capital p.capital) b.partners
        then txt
            "each partner's capital account and current account open at their own balances, as in their ledgers"
        else txt "each partner's account opens at its own balance, as in its ledger")
    else elim b.style [
      | npo ↦ txt "the General Fund and each fund open at one figure each"
      | business ↦ running_how (running_accounts b pcb)
      | property ↦ running_how (running_accounts b pcb)
      | household ↦ running_how (running_accounts b pcb)
    ]

-- The rows, and the totals of the two sides.
pub record CarrySums : Type 0 where
  pub rows : List (List Text)
  pub tdr : ℤ
  pub tcr : ℤ

unfoldable pub carry_step : Carried → CarrySums → CarrySums
unfolding fmt_zero side_of
carry_step x s =
    let amount = fmt_zero (abs x.bal) in
    let side = side_of x.bal in
    record {
      rows = s.rows ++ ((x.label ∷ x.group ∷ amount ∷ side ∷ amount ∷ side ∷ []) ∷ []);
      tdr = if is_pos x.bal then s.tdr +ℤ x.bal else s.tdr;
      tcr = if is_pos x.bal then s.tcr else s.tcr +ℤ neg x.bal;
    }

unfoldable pub carry_sums : List Carried → CarrySums → CarrySums
carry_sums [] s = s
carry_sums (x ∷ xs) s = carry_sums xs (carry_step x s)

abbrev pub no_rows : CarrySums
no_rows = record { rows = []; tdr = pos 0; tcr = pos 0 }

unfoldable pub carry_page : Book → ℕ → Balances → CarrySums → Page
unfolding carry_how has_drawings head_line table bold fmt balance_of foot_notes txt str_of
carry_page b num pcb s =
    (cat (txt "#### 4." ∷ str_of num ∷ txt " Carried into FY 2026-27" ∷ [])
      ∷ []
      ∷ head_line b.name (txt "opening balances on 01 Apr 2026")
      ∷ []
      ∷ cat (
          txt
            "Every account that carries a balance takes its balance **after the year close** into the new year as its opening balance b/d on 01 Apr 2026 — the b/d line of its ledger. Income and expense accounts"
          ∷ (if has_drawings b then txt " and the drawings" else [])
          ∷ txt " start FY 2026-27 at nil; "
          ∷ carry_how b pcb
          ∷ txt "."
          ∷ [])
      ∷ []
      ∷ [])
    ++ table
        (txt "Account"
          ∷ txt "Type"
          ∷ txt "Closing 31 Mar 2026, after the close ₹"
          ∷ txt "Side"
          ∷ txt "Opening b/d 01 Apr 2026 ₹"
          ∷ txt "Side"
          ∷ [])
        (l ∷ l ∷ r ∷ c ∷ r ∷ c ∷ [])
        (s.rows
          ++ ((bold (txt "Σ Dr = Σ Cr")
                ∷ []
                ∷ bold (fmt s.tdr)
                ∷ bold (txt "= " ++ fmt s.tcr)
                ∷ bold (fmt s.tdr)
                ∷ bold (txt "= " ++ fmt s.tcr)
                ∷ [])
              ∷ []))
    ++ ([] ∷ [])
    ++ foot_notes b
        (some_of (λ a. is_kind a.kind fixed && not (is_nil (balance_of a.name pcb))) b.accounts)
        false 0 none

-- `sec_carry_forward(b, num)`; every call of `post_close_balances` gives the same balances.
unfoldable pub sec_carry_forward : Book → ℕ → Result Page
sec_carry_forward b num = do
  pcb ← post_close_balances b
  let s = carry_sums (carried_of pcb b.accounts) no_rows
  guard (eqb_ℤ s.tdr s.tcr) carry_forward_differs
  ok (carry_page b num pcb s)
