-- ===== src/Report/Ageing/Page.antt =====
-- `sec_ageing` of docs/accounting/reference-books/build.py: its table and its page.
use rukka_folio.Prelude.{
  ℕ, not, List, [], ◌∷◌, ◌++◌, if◌then◌else◌, is_pos, abs, sum_by, keep, Text, txt, cat, str_of,
  Option, none, some,
}
use rukka_folio.Dates.{Date, fdate, fy_end}
use rukka_folio.Money.{fmt, fmt_zero}
use rukka_folio.Fault.{Result, ok, ◌>>=◌, or_key_error}
use rukka_folio.Book.{Book}
use rukka_folio.Report.Markdown.{Page, l, r, table, bold, head_line}
use rukka_folio.Report.Ageing.{Items, AgeingRow, ageing_rows}

-- `items[0][0]`
abbrev pub first_day : Items → Option Date
first_day [] = none
first_day (i ∷ items) = some i.0

unfoldable pub ageing_cells : AgeingRow → Date → List Text
unfolding fmt fdate txt
ageing_cells x d =
    x.name
    ∷ (if is_pos x.balance then txt "You will get (Dr)" else txt "You will give (Cr)")
    ∷ fmt (abs x.balance)
    ∷ fmt x.days.0
    ∷ fmt x.days.1
    ∷ fmt x.days.2
    ∷ fdate d
    ∷ []

-- The rows of one side, of those that the loop made.
unfoldable pub ageing_side : List AgeingRow → Result (List (List Text))
unfolding ageing_cells
ageing_side [] = ok []
ageing_side (x ∷ rest) =
    let more = ageing_side rest in
    do d ← or_key_error (first_day x.since); rows ← more; ok (ageing_cells x d ∷ rows)

-- `tot[1]` or `tot[-1]`, of the rows of its side, under its words.
unfoldable pub ageing_total : Text → List AgeingRow → List Text
unfolding fmt fmt_zero bold
ageing_total word rows =
    bold word
    ∷ []
    ∷ bold (fmt_zero (sum_by (λ x. abs x.balance) rows))
    ∷ bold (fmt (sum_by (λ x. x.days.0) rows))
    ∷ bold (fmt (sum_by (λ x. x.days.1) rows))
    ∷ bold (fmt (sum_by (λ x. x.days.2) rows))
    ∷ []
    ∷ []

unfoldable pub ageing_page : Book → ℕ → List (List Text) → Page
unfolding head_line table fdate txt str_of
ageing_page b num body =
    (cat (
        txt "#### 3."
        ∷ str_of num
        ∷ txt " You will get / You will give — who owes what, and since when (on "
        ∷ fdate fy_end
        ∷ txt ")"
        ∷ [])
      ∷ []
      ∷ head_line b.name (txt "on " ++ fdate fy_end)
      ∷ []
      ∷ txt
          "Every person or shop account with a balance, read straight from its own ledger, split by how long the amount has been open: money received settles the oldest amount first."
      ∷ []
      ∷ [])
    ++ table
        (txt "Person / shop"
          ∷ txt "Side"
          ∷ txt "Balance ₹"
          ∷ txt "Up to 30 days ₹"
          ∷ txt "31–90 days ₹"
          ∷ txt "Over 90 days ₹"
          ∷ txt "Open since"
          ∷ [])
        (l ∷ l ∷ r ∷ r ∷ r ∷ r ∷ l ∷ []) body
    ++ ([] ∷ [])

-- `sec_ageing(b, num)`
unfoldable pub sec_ageing : Book → ℕ → Result Page
unfolding ageing_rows ageing_side ageing_total ageing_page txt
sec_ageing b num = do
  all_rows ← ageing_rows b.accounts
  let get = keep (λ x. is_pos x.balance) all_rows
  let give = keep (λ x. not (is_pos x.balance)) all_rows
  gets ← ageing_side get
  gives ← ageing_side give
  ok (
      ageing_page b num (
        gets
        ++ (ageing_total (txt "Total you will get") get ∷ [])
        ++ gives
        ++ (ageing_total (txt "Total you will give") give ∷ [])))
