-- ===== src/Report/LedgerTable/Columns.antt =====
-- The two columns of a balance-sheet account's page add up to the same total: the assertion of
-- `ledger_table` never fails, whatever rows and close entries it is given.
use rukka_folio.Prelude.{
  ◌≡◌, refl, ap, Bool-cases, inl, inr, true, Bool, List, [], ◌∷◌, ℤ, pos, ◌+ℤ◌, ◌-ℤ◌, int_laws,
  eqb_ℤ, arith, sym,
}
use rukka_folio.Dates.{Date}
use rukka_folio.Kinds.{is_bs_kind}
use rukka_folio.Fault.{ok, guard->>-eq-ok}
use rukka_folio.Book.{Account, Row}
use rukka_folio.Book.Changed.{ok-injective}
use rukka_folio.Close.{ClosePost}
use rukka_folio.Report.LedgerTable.{
  Sums, ledger_rows, close_rows, close_row, ledger_table, balance_tail, balance_page, head_tail,
  balance_sums, head_sums, Labels, LedgerPage, opening_of, dr_column, cr_column,
}

-- The running balance is the opening, and the columns so far.
abbrev pub Foots : ℤ → Sums → Type 0
Foots opening s = s.bal ≡ opening +ℤ (s.tdr -ℤ s.tcr)

pub ledger_rows-Foots :
    (narr : Bool) (opening : ℤ) (rows : List Row) (s : Sums)
    → Foots opening s
    → Foots opening (ledger_rows narr rows s)
unfolding ledger_rows
ledger_rows-Foots narr opening [] s h = h
ledger_rows-Foots narr opening (x ∷ xs) s h =
    ledger_rows-Foots narr opening xs _ (omega (int_laws, h))

pub close_rows-Foots :
    (opening : ℤ) (ps : List ClosePost) (s : Sums)
    → Foots opening s
    → Foots opening (close_rows ps s)
unfolding close_rows close_row
close_rows-Foots opening [] s h = h
close_rows-Foots opening (p ∷ ps) s h = close_rows-Foots opening ps _ (omega (int_laws, h))

columns-agree :
    (opening : ℤ) (s : Sums)
    → Foots opening s
    → eqb_ℤ (dr_column opening s) (cr_column opening s) ≡ true
columns-agree opening s h =
    let e : dr_column opening s ≡ cr_column opening s = omega (int_laws, h) in equal _ _ e
  where
    equal : (a d : ℤ) → a ≡ d → eqb_ℤ a d ≡ true
    equal a d e = ground arith

-- The page carries on from the opening balance.
abbrev pub Carries : LedgerPage → Type 0
Carries p = p.closing ≡ p.opening +ℤ (p.tdr -ℤ p.tcr)

balance_tail_returns :
    (w : Labels) (end : Date) (opening : ℤ) (s : Sums)
    → Foots opening s
    → (p : LedgerPage) × (balance_tail w end opening s ≡ ok p) × Carries p
unfolding balance_tail
balance_tail_returns w end opening s h =
    (balance_page w end opening s, rw (columns-agree opening s h), h)

opening-balance_tail :
    (w : Labels) (end : Date) (opening : ℤ) (s : Sums) (p : LedgerPage)
    → balance_tail w end opening s ≡ ok p
    → p.opening ≡ opening
unfolding balance_tail balance_page
opening-balance_tail w end opening s p h =
    let (e, k) = guard->>-eq-ok _ _ _ h in ap LedgerPage.opening (sym (ok-injective k))

pub foots_at_start : (opening : ℤ) → opening ≡ opening +ℤ (pos 0 -ℤ pos 0)
foots_at_start opening = omega int_laws

-- `ledger_table` returns a page for any account and any rows: its two columns agree, so that its
-- assertion holds. The page starts at the account's opening balance for the period, and its
-- closing balance is the opening balance with the total of the Dr column added and that of the Cr
-- column taken off.
pub ledger_table-Carries :
    (a : Account) (rows : List Row) (start end : Date) (w : Labels) (closes : List ClosePost)
    → (p : LedgerPage) × (ledger_table a rows start end w closes ≡ ok p)
      × (p.opening ≡ opening_of a start)
      × Carries p
unfolding ledger_table head_tail
ledger_table-Carries a rows start end w closes =
    let o = opening_of a start in
    let s = balance_sums a rows start w closes in
    let t = head_sums a rows start w in
    let foots : Foots o s =
      close_rows-Foots o closes _ (ledger_rows-Foots w.narr o rows _ (foots_at_start o)) in
    elim (Bool-cases (is_bs_kind a.kind)) [
      | inl e ↦
          let (p, q, c) = balance_tail_returns w end o s foots in
          (p, rw e q, opening-balance_tail w end o s p q, c)
      | inr e ↦
          (head_tail w closes o t, rw e, refl, ledger_rows-Foots w.narr o rows _ (foots_at_start o))
    ]
