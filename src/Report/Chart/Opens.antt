-- ===== src/Report/Chart/Opens.antt =====
-- When the chart's totals agree.
use rukka_folio.Prelude.{
  eq→eqb, ne→eqb, nil→eq, not_nil→ne, ◌≡◌, ◌≢◌, ◌⊎◌, inl, inr, Bool-cases, ℕ, ◌+◌, List, [], ◌∷◌,
  pos, ◌+ℤ◌, ◌-ℤ◌, int_laws, is_nil, sum_by,
}
use rukka_folio.Fault.{ok, err, chart_differs}
use rukka_folio.Book.{Account, Book}
use rukka_folio.Posting.{opening_total}
use rukka_folio.Report.Markdown.{Page}
use rukka_folio.Report.Chart.{ChartSums, chart_rows, chart_sums, chart_page, sec_chart}

chart_rows-sides :
    (i : ℕ) (accounts : List Account) (s : ChartSums)
    → (chart_rows i accounts s).tdr -ℤ (chart_rows i accounts s).tcr
      ≡ s.tdr -ℤ s.tcr +ℤ sum_by (λ a. a.opening) accounts
unfolding chart_rows
chart_rows-sides i [] s = omega int_laws
chart_rows-sides i (a ∷ rest) s = rw (chart_rows-sides (i + 1) rest) (omega int_laws)

-- `sec_chart` returns its page when the openings of the book add up to nil, and its assertion fails when
-- they do not.
pub sec_chart-opening_total :
    (b : Book)
    → ((opening_total b.accounts ≡ pos 0) × ((page : Page) × (sec_chart b ≡ ok page)))
      ⊎ ((opening_total b.accounts ≢ pos 0) × (sec_chart b ≡ err chart_differs))
unfolding sec_chart
sec_chart-opening_total b =
    let s = chart_sums b in
    let e = chart_rows-sides 1 b.accounts (record { rows = []; tdr = pos 0; tcr = pos 0 }) in
    elim (Bool-cases (is_nil (opening_total b.accounts))) [
      | inl z ↦
          let nil = nil→eq (opening_total b.accounts) z in
          let same_total : s.tdr ≡ s.tcr = omega (int_laws, e, nil) in
          inl (nil, (chart_page b s, rw (eq→eqb _ _ same_total)))
      | inr z ↦
          let out = not_nil→ne (opening_total b.accounts) z in
          let other : s.tdr ≢ s.tcr = λ q. out (omega (int_laws, e, q)) in
          inr (out, rw (ne→eqb _ _ other))
    ]
