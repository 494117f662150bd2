-- ===== src/Report/BalanceSheet/Sheet.antt =====
-- The loop of `sec_balance_sheet` over the accounts: what the book has and will get, its funds, and
-- what it will give.
use rukka_folio.Prelude.{
  List, [], ◌∷◌, ◌++◌, not, ◌||◌, if◌then◌else◌, ℤ, pos, neg, ◌+ℤ◌, is_nil, abs, Text,
}
use rukka_folio.Money.{fmt_zero}
use rukka_folio.Kinds.{is_bs_kind, is_equity_kind}
use rukka_folio.Book.{Account}
use rukka_folio.Report.Position.{Place, place, have, get, give, funds}

pub record SheetSums : Type 0 where
  pub liab : List (List Text)
  pub asset : List (List Text)
  pub fund : List (List Text)
  pub tl : ℤ
  pub ta : ℤ

abbrev pub empty_sheet : SheetSums
empty_sheet = record { liab = []; asset = []; fund = []; tl = pos 0; ta = pos 0 }

abbrev pub sheet_row : Account → ℤ → List Text
sheet_row a x = a.name ∷ fmt_zero x ∷ []

unfoldable pub to_assets : Account → SheetSums → SheetSums
to_assets a s = record s {
  asset = s.asset ++ (sheet_row a (abs a.closing) ∷ []);
  ta = s.ta +ℤ abs a.closing;
}

unfoldable pub to_funds : Account → SheetSums → SheetSums
to_funds a s = record s {
  fund = s.fund ++ (sheet_row a (neg a.closing) ∷ []);
  tl = s.tl +ℤ neg a.closing;
}

unfoldable pub to_liabilities : Account → SheetSums → SheetSums
to_liabilities a s = record s {
  liab = s.liab ++ (sheet_row a (neg a.closing) ∷ []);
  tl = s.tl +ℤ neg a.closing;
}

-- The account goes to the table of its place.
unfoldable pub put_at : Place → Account → SheetSums → SheetSums
unfolding to_assets to_funds to_liabilities
put_at have a s = to_assets a s
put_at get a s = to_assets a s
put_at funds a s = to_funds a s
put_at give a s = to_liabilities a s

-- One round.
unfoldable pub sheet_step : Account → SheetSums → SheetSums
sheet_step a s =
    if not (is_bs_kind a.kind) || (is_equity_kind a.kind || is_nil a.closing)
    then s
    else put_at (place a.kind a.closing) a s

unfoldable pub sheet_rows : List Account → SheetSums → SheetSums
sheet_rows [] s = s
sheet_rows (a ∷ rest) s = sheet_rows rest (sheet_step a s)
