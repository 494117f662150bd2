-- ===== src/Report/AppropriationPage.antt =====
-- `sec_appropriation` of docs/accounting/reference-books/build.py: how the profit is divided among the
-- partners.
use rukka_folio.Prelude.{
  ℕ, zero, suc, ◌+◌, ◌-◌, ◌/◌, ◌%◌, Bool, List, [], ◌∷◌, ◌++◌, if◌then◌else◌, ◌==◌, not, ℤ, pos,
  neg, map, keep, length, Text, txt, cat, join, str_of, pad2, Option, none, some,
}
use rukka_folio.Money.{fmt, fmt_zero, em_dash}
use rukka_folio.Fault.{Result, ok, ◌>>=◌, or_key_error}
use rukka_folio.Book.{Account, Book, Partner, find_account}
use rukka_folio.Appropriation.{Part, appropriation}
use rukka_folio.Report.Markdown.{Page, l, r, table, bold, head_line}

-- The digits of a number without its trailing zeros, and how many zeros there were, on fuel.
unfoldable pub strip_zeros : ℕ → ℕ → ℕ → ℕ × ℕ
strip_zeros zero n zeros = (n, zeros)
strip_zeros (suc fuel) n zeros =
    let shorter = strip_zeros fuel (n / 10) (zeros + 1) in
    if n % 10 == 0 then shorter else (n, zeros)

-- `str` of a Decimal with a positive exponent.
abbrev pub scientific : Text → ℕ → Text
scientific [] e = []
scientific (c ∷ []) e = cat ((c ∷ []) ∷ txt "E+" ∷ str_of e ∷ [])
scientific (c ∷ d ∷ s) e =
    cat ((c ∷ []) ∷ txt "." ∷ (d ∷ s) ∷ txt "E+" ∷ str_of (e + length (d ∷ s)) ∷ [])

-- `str((Decimal(bp) / 100).normalize())`, of an amount above nil; the value is fuel enough.
unfoldable pub percent_text : ℕ → Text
unfolding strip_zeros txt str_of pad2
percent_text bp =
    let (n, zeros) = strip_zeros bp bp 0 in
    if zeros == 0
    then cat (str_of (n / 100) ∷ txt "." ∷ pad2 (n % 100) ∷ [])
    else if zeros == 1
    then cat (str_of (n / 10) ∷ txt "." ∷ str_of (n % 10) ∷ [])
    else if zeros == 2
    then str_of n
    else scientific (str_of n) (zeros - 2)

abbrev pub has_interest : Partner → Bool
has_interest p = not (p.ioc_bp == 0)

-- `how`
unfoldable pub divided_how : List Partner → Text
unfolding percent_text join txt str_of
divided_how partners =
    let ratio = join (txt " : ") (map (λ p. str_of p.share) partners) in
    elim (keep has_interest partners) [
      | [] ↦
          txt
            "no interest on capital is added (the partners did not agree it); the whole profit is shared in the ratio "
          ++ ratio
      | p ∷ rest ↦ cat (
          txt "interest on capital at "
          ∷ percent_text p.ioc_bp
          ∷ txt
              "% a year on each partner's fixed capital first (the partners agreed it, and it is allowed only out of profit), then the rest in the ratio "
          ∷ ratio
          ∷ [])
    ]

-- `p["capital"]`, of a partner who may have none.
abbrev pub capital_account : List Account → Partner → Option Account
capital_account accounts p = elim p.capital [ none ↦ none | some n ↦ find_account n accounts ]

-- The rows of the interest on capital.
unfoldable pub interest_rows : List Account → List Part → Result (List (List Text))
unfolding percent_text fmt fmt_zero find_account txt
interest_rows accounts [] = ok []
interest_rows accounts (x ∷ rest) =
    let more = interest_rows accounts rest in
    if not (has_interest x.partner) then more else do
      a ← or_key_error (capital_account accounts x.partner)
      rows ← more
      ok (
          (cat (txt "To Interest on capital — " ∷ x.partner.name ∷ [])
            ∷ cat (percent_text x.partner.ioc_bp ∷ txt "% on ₹" ∷ fmt (neg a.closing) ∷ [])
            ∷ fmt_zero (pos x.interest)
            ∷ em_dash
            ∷ [])
          ∷ rows)

abbrev pub weights : List Partner → ℕ
weights [] = 0
weights (p ∷ ps) = p.share + weights ps

-- The row of a partner's share of the profit.
unfoldable pub share_row : ℕ → Part → List Text
unfolding fmt_zero txt str_of
share_row total x =
    cat (txt "To Share of profit — " ∷ x.partner.name ∷ [])
    ∷ cat (str_of x.partner.share ∷ txt " of " ∷ str_of total ∷ [])
    ∷ fmt_zero (pos x.share)
    ∷ em_dash
    ∷ []

unfoldable pub appropriation_page : Book → ℤ → ℕ → ℕ → List (List Text) → Page
unfolding divided_how head_line table bold fmt fmt_zero txt str_of
appropriation_page b result num close_num rows =
    (cat (
        txt "#### 4." ∷ str_of num ∷ txt " Profit & Loss Appropriation Account for FY 2025-26" ∷ [])
      ∷ []
      ∷ head_line b.name (txt "FY 2025-26")
      ∷ []
      ∷ cat (
          txt "How the year's profit is divided among the partners, as their agreement says: "
          ∷ divided_how b.partners
          ∷ txt
              ". The book posts this account at the year close and adds each partner's part to his account — entries in 4."
          ∷ str_of close_num
          ∷ txt "."
          ∷ [])
      ∷ []
      ∷ [])
    ++ table (txt "Particulars" ∷ txt "Basis" ∷ txt "Dr ₹" ∷ txt "Cr ₹" ∷ []) (l ∷ l ∷ r ∷ r ∷ []) (
        rows
        ++ ((cat (txt "By Net profit for the year (4." ∷ str_of (num - 1) ∷ txt ")" ∷ [])
              ∷ []
              ∷ em_dash
              ∷ fmt_zero result
              ∷ [])
            ∷ (bold (txt "Total") ∷ [] ∷ bold (fmt result) ∷ bold (fmt result) ∷ [])
            ∷ []))
    ++ ([] ∷ [])

-- `sec_appropriation(b, result, num, close_num)`
unfoldable pub sec_appropriation : Book → ℤ → ℕ → ℕ → Result Page
unfolding appropriation interest_rows share_row appropriation_page
sec_appropriation b result num close_num = do
  parts ← appropriation b result
  paid ← interest_rows b.accounts parts
  ok (
      appropriation_page b result num close_num
        (paid ++ map (share_row (weights b.partners)) parts))
