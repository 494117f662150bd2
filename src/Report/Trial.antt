-- ===== src/Report/Trial.antt =====
-- The trial balance in `sec_closing` of docs/accounting/reference-books/build.py: closing balances only.
pub mod Sides
use rukka_folio.Prelude.{
  Bool, true, false, not, ◌||◌, List, [], ◌∷◌, ◌++◌, if◌then◌else◌, length, ◌==◌, ℤ, pos, ◌+ℤ◌,
  eqb_ℤ, is_nil, dr_of, cr_of, Text, txt, cat, join, none,
}
use rukka_folio.Dates.{fdate, fy_end}
use rukka_folio.Money.{fmt}
use rukka_folio.Fault.{Result, ok, ◌>>=◌, ◌>>◌, guard, trial_differs}
use rukka_folio.Book.{Account, Book}
use rukka_folio.Report.Markdown.{Page, l, r, table, bold, head_line}
use rukka_folio.Report.Position.{foot_notes, shows_things_owned}

-- The rows, the accounts that ended at nil, and the totals.
pub record TrialSums : Type 0 where
  pub rows : List (List Text)
  pub zero : List Text
  pub tdr : ℤ
  pub tcr : ℤ

abbrev pub is_used : Account → Bool
is_used a = not (length a.rows == 0) || not (is_nil a.opening)

-- One round.
unfoldable pub trial_step : Account → TrialSums → TrialSums
unfolding fmt
trial_step a s =
    if is_nil a.closing
    then (if is_used a then record s { zero = s.zero ++ (a.name ∷ []) } else s)
    else record s {
      rows = s.rows ++ ((a.name ∷ fmt (dr_of a.closing) ∷ fmt (cr_of a.closing) ∷ []) ∷ []);
      tdr = s.tdr +ℤ dr_of a.closing;
      tcr = s.tcr +ℤ cr_of a.closing;
    }

unfoldable pub trial_rows : List Account → TrialSums → TrialSums
trial_rows [] s = s
trial_rows (a ∷ rest) s = trial_rows rest (trial_step a s)

abbrev pub no_trial : TrialSums
no_trial = record { rows = []; zero = []; tdr = pos 0; tcr = pos 0 }

unfoldable pub trial_page : Book → TrialSums → Page
unfolding head_line table bold fmt fdate join foot_notes shows_things_owned txt
trial_page b s =
    (txt "#### 4.1 Trial Balance on 31 Mar 2026 — closing balances only"
      ∷ []
      ∷ head_line b.name (txt "on " ++ fdate fy_end)
      ∷ []
      ∷ txt
          "The closing balance of every account after the last entry of the year (before the year-close entries below), Dr balances in one column and Cr balances in the other. The two totals must agree. Each account's opening, movements and closing are in its own ledger."
      ∷ []
      ∷ [])
    ++ table (txt "Account" ∷ txt "Dr balance ₹" ∷ txt "Cr balance ₹" ∷ []) (l ∷ r ∷ r ∷ [])
        (s.rows ++ ((bold (txt "TOTALS") ∷ bold (fmt s.tdr) ∷ bold (fmt s.tcr) ∷ []) ∷ []))
    ++ ([]
        ∷ cat (
            txt "**Checked: Dr ₹"
            ∷ fmt s.tdr
            ∷ txt " = Cr ₹"
            ∷ fmt s.tcr
            ∷ txt ". The books balance.**"
            ∷ [])
        ∷ [])
    ++ (if length s.zero == 0
        then []
        else []
          ∷ cat (
              txt "*Accounts with entries in the year but nil on 31 Mar 2026 (not listed above): "
              ∷ join (txt "; ") s.zero
              ∷ txt ".*"
              ∷ [])
          ∷ [])
    ++ ([] ∷ [])
    ++ foot_notes b (shows_things_owned b fy_end) false 0 none

-- Part 4.1.
unfoldable pub sec_trial : Book → Result Page
sec_trial b =
    let s = trial_rows b.accounts no_trial in
    guard (eqb_ℤ s.tdr s.tcr) trial_differs >> ok (trial_page b s)
