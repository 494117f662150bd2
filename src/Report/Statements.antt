-- ===== src/Report/Statements.antt =====
-- `sec_statements` of docs/accounting/reference-books/build.py, and the heading of `position_table`.
use rukka_folio.Prelude.{
  Bool, true, false, not, ◌&&◌, [], ◌∷◌, ◌++◌, if◌then◌else◌, ◌==◌, leb, ◌-◌, length, take, some_of,
  is_nil, keep, lower, Text, txt, cat, none, some,
}
use rukka_folio.Dates.{Date, D, fdate, fy_end}
use rukka_folio.Kinds.{fund, party, is_kind, is_bs_kind}
use rukka_folio.Fault.{Result, ok, ◌>>=◌, or_key_error}
use rukka_folio.Book.{
  Account, Book, Custom, Style, business, property, household, npo, find_account,
}
use rukka_folio.Queries.{balance_on}
use rukka_folio.Close.{close_posts}
use rukka_folio.Report.Markdown.{Page, head_line}
use rukka_folio.Report.Position.{position_table}
use rukka_folio.Report.Month.{sec_month}
use rukka_folio.Report.Statement.{statement_table}
use rukka_folio.Report.Ageing.Page.{sec_ageing}
use rukka_folio.Report.BankExtract.{sec_bank_extract}

-- `MID_YEAR`
abbrev pub mid_year : Date
mid_year = D 2025 9 30

-- `b.own_word if b.style == "npo" else b.own_word.lower()`
abbrev pub own_word_of : Style → Text → Text
own_word_of npo w = w
own_word_of business w = lower w
own_word_of property w = lower w
own_word_of household w = lower w

-- The first lines of `position_table(b, date, heading)`.
unfoldable pub position_head : Book → Date → Text → Page
unfolding balance_on fdate head_line txt
position_head b d heading =
    let held = some_of (λ a. is_kind a.kind fund && not (is_nil (balance_on d a))) b.accounts in
    cat (txt "#### " ∷ heading ∷ [])
    ∷ []
    ∷ head_line b.name (txt "on " ++ fdate d)
    ∷ []
    ∷ cat (
        txt "Every account with a balance on "
        ∷ fdate d
        ∷ txt
            ", placed on the side its balance falls. What I have plus what I will get, less what I will give"
        ∷ (if held then txt " and less the funds held for a purpose" else [])
        ∷ txt ", is the "
        ∷ own_word_of b.style b.own_word
        ∷ txt "."
        ∷ [])
    ∷ []
    ∷ []

-- A business sends its customer a copy.
abbrev pub sends_copies : Style → Bool
sends_copies business = true
sends_copies property = true
sends_copies household = false
sends_copies npo = false

unfoldable pub is_sent : Book → Account → Bool
is_sent b a = is_kind a.kind party && sends_copies b.style

-- Part 3.4: the account of `b.custom`, for the period that is chosen.
unfoldable pub sec_custom : Book → Custom → Result Page
unfolding find_account is_sent statement_table close_posts fdate head_line is_bs_kind fy_end txt
sec_custom b x = do
  a ← or_key_error (find_account x.name b.accounts)
  let rows = keep (λ k. leb x.start k.date && leb k.date x.end) a.rows
  let period = cat (fdate x.start ∷ txt " to " ∷ fdate x.end ∷ [])
  shown ← (if (x.end == fy_end) && is_bs_kind a.kind then close_posts b x.name else ok [])
  page ← statement_table a rows x.start x.end shown (is_sent b a)
  ok (
      (cat (txt "#### 3.4 One account for a chosen period — " ∷ x.name ∷ txt ", " ∷ period ∷ [])
        ∷ []
        ∷ head_line (cat (b.name ∷ txt " — " ∷ x.name ∷ [])) period
        ∷ []
        ∷ cat (
            x.why
            ∷ (if is_sent b a
                then cat (
                    txt " This is the copy sent to "
                    ∷ take (length x.name - 4) x.name
                    ∷ txt
                        ": it is read by them, so its columns are named by side — *Naam (Dr)* and *Jama (Cr)* — and its last line says *Balance due from you* or *Balance due to you*."
                    ∷ [])
                else txt " This is the statement the user shares.")
            ∷ [])
        ∷ []
        ∷ [])
      ++ page
      ++ ([] ∷ []))

-- Part 3.6, if the book has a bank statement to show.
unfoldable pub extract_part : Book → Result Page
unfolding sec_bank_extract
extract_part b = elim b.bank_extract [
  | none ↦ ok []
  | some (bank, y, m) ↦ sec_bank_extract b 6 bank y m
]

-- `sec_statements(b)`; without a `custom` account its unpacking raises.
unfoldable pub sec_statements : Book → Result Page
unfolding position_head position_table sec_month sec_custom sec_ageing extract_part fdate fy_end txt
    D
sec_statements b = do
  middle ← position_table b mid_year
  last ← position_table b fy_end
  month ← sec_month b 2025 10
  x ← or_key_error b.custom
  custom ← sec_custom b x
  ageing ← sec_ageing b 5
  extract ← extract_part b
  let what = txt "3.1 Full position on "
  ok (
      (txt "### 3. Positions and statements during the year" ∷ [] ∷ [])
      ++ position_head b mid_year (
          cat
            (what ∷ fdate mid_year ∷ txt " — what I have, what I will get, what I will give" ∷ []))
      ++ middle
      ++ position_head b fy_end
          (cat (txt "3.2 Full position on " ∷ fdate fy_end ∷ txt " — year end" ∷ []))
      ++ last
      ++ month
      ++ custom
      ++ ageing
      ++ extract)
