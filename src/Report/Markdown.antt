-- ===== src/Report/Markdown.antt =====
-- The markdown helpers of docs/accounting/reference-books/build.py.
use rukka_folio.Prelude.{
  List, [], ◌∷◌, ◌++◌, if◌then◌else◌, ◌==◌, length, ℤ, is_pos, is_neg, is_nil, abs, Text, txt, join,
  map,
}
use rukka_folio.Money.{fmt, fmt_zero, em_dash}
use rukka_folio.Book.{Line}

-- A page is a list of lines.
abbrev pub Page : Type 0
Page = List Text

-- `"l"`, `"r"` and `"c"`
pub data Align : Type 0 where
  l r c : Align

abbrev pub separator : Align → Text
separator l = txt ":---"
separator r = txt "---:"
separator c = txt ":---:"

-- `"| " + " | ".join(cells) + " |"`
unfoldable pub row_line : List Text → Text
unfolding txt join
row_line cells = txt "| " ++ (join (txt " | ") cells ++ txt " |")

unfoldable pub table : List Text → List Align → List (List Text) → Page
unfolding row_line txt join
table headers aligns rows =
    row_line headers
    ∷ (txt "|" ++ (join (txt "|") (map separator aligns) ++ txt "|"))
    ∷ map row_line rows

unfoldable pub bold : Text → Text
unfolding txt
bold s = txt "**" ++ (s ++ txt "**")

unfoldable pub side_of : ℤ → Text
unfolding txt
side_of bal = if is_pos bal then txt "Dr" else if is_neg bal then txt "Cr" else em_dash

unfoldable pub amt_side : ℤ → Text
unfolding fmt_zero side_of txt
amt_side bal = fmt_zero (abs bal) ++ (if is_nil bal then [] else txt " " ++ side_of bal)

unfoldable pub basis_line : Text
unfolding txt
basis_line = txt "Kept on money paid and received, and what people owe; no year-end adjustments."

unfoldable pub made_on : Text
unfolding txt
made_on = txt "02 Apr 2026, 10:00"

unfoldable pub head_line : Text → Text → Text
unfolding basis_line made_on txt join
head_line name period =
    txt "*"
    ++ (join (txt " · ")
          (name ∷ period ∷ basis_line ∷ txt "Year closed" ∷ (txt "Made on " ++ made_on) ∷ [])
        ++ txt "*")

-- `"%s ₹%s" % (n, fmt(a))`
abbrev pub named_amount : Line → Text
named_amount x = x.0 ++ (txt " ₹" ++ fmt x.1)

unfoldable pub side_cell : List Line → Text
unfolding fmt txt join
side_cell lines =
    if length lines == 1
    then join [] (map (λ x. x.0) lines)
    else join (txt "<br>") (map named_amount lines)
