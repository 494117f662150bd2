-- ===== src/Report/Daybook/Page.antt =====
-- `sec_daybook` of docs/accounting/reference-books/build.py: the Day Book's page.
use rukka_folio.Prelude.{
  ℕ, ◌+◌, Bool, true, false, ◌&&◌, ◌||◌, ltb, ◌==◌, List, [], ◌∷◌, ◌++◌, if◌then◌else◌, length, map,
  Text, txt, cat, join, same, str_of,
}
use rukka_folio.Dates.{fdate, fy_start, fy_end}
use rukka_folio.Vtypes.{word_of, plain_vtype}
use rukka_folio.Fault.{Result, ok, ◌>>=◌, or_key_error}
use rukka_folio.Book.{Book, Voucher}
use rukka_folio.Report.Markdown.{Page, l, r, table, head_line}
use rukka_folio.Report.Daybook.{daybook_rows}

-- `kinds`: how many entries there are of each plain type.
abbrev pub KindCounts : Type 0
KindCounts = List (Text × ℕ)

unfoldable pub count_kind : Text → KindCounts → KindCounts
count_kind k [] = (k, 1) ∷ []
count_kind k ((m, n) ∷ rest) = if same m k then (m, n + 1) ∷ rest else (m, n) ∷ count_kind k rest

unfoldable pub kind_counts : List Voucher → KindCounts → Result KindCounts
unfolding count_kind word_of plain_vtype
kind_counts [] kinds = ok kinds
kind_counts (w ∷ ws) kinds = do
  k ← or_key_error (word_of w.vtype plain_vtype)
  kind_counts ws (count_kind k kinds)

-- `s < t` on strings.
unfoldable pub text_before : Text → Text → Bool
text_before s [] = false
text_before [] (d ∷ t) = true
text_before (c ∷ s) (d ∷ t) = ltb c d || ((c == d) && text_before s t)

-- `sorted(kinds)`
unfoldable pub insert_kind : Text × ℕ → KindCounts → KindCounts
unfolding text_before
insert_kind k [] = k ∷ []
insert_kind k (m ∷ rest) = if text_before m.0 k.0 then m ∷ insert_kind k rest else k ∷ m ∷ rest

unfoldable pub sorted_kinds : KindCounts → KindCounts
unfolding insert_kind
sorted_kinds [] = []
sorted_kinds (k ∷ rest) = insert_kind k (sorted_kinds rest)

unfoldable pub daybook_intro : Text
unfolding txt
daybook_intro = cat (
    txt
      "In date order. Type: *Money in*, *Money out*, *Transfer* (between own cash, bank, card or deposit), *Gave on credit* / *Took on credit* (credit given to or taken from a person or shop — no money moved yet), "
    ∷ txt
        "*Advance settled* (an advance accounted for against the bills), *Paid by a partner* (a partner paid from his own pocket), *Paid by the joint family* (the family paid a household's bill), "
    ∷ txt
        "*Settled at year end* (a sub-family account squared for the year), *Paid from a fund* (one action: the cost is charged to the year and the same amount is transferred from the fund), "
    ∷ txt
        "*Interest added to a deposit* (the bank added it; no money moved), *Written off* (a balance known not to come back, charged to an expense head), "
    ∷ txt
        "*Deposit set off* (a deposit held used against what the same person owes) and *Deposit forfeited* (a deposit kept as income), *Retention released* (money a customer held back, now due), *Correction* (an earlier entry put right — its note names the entry and its date) and *Fix / Adjust* (no money moved). "
    ∷ txt
        "An entry that moves no money in or out of cash, bank, card or wallet is marked *no money moved*. An entry with more than one account on a side shows each account with its amount."
    ∷ [])

-- `sec_daybook(b)`
unfoldable pub sec_daybook : Book → Result Page
unfolding daybook_rows daybook_intro kind_counts sorted_kinds head_line table fdate join txt str_of
sec_daybook b = do
  rows ← daybook_rows b
  kinds ← kind_counts b.vouchers []
  ok (
      (txt "### 1. Day Book (rojnamcha) — every entry of the year"
        ∷ []
        ∷ head_line b.name (cat (fdate fy_start ∷ txt " to " ∷ fdate fy_end ∷ []))
        ∷ []
        ∷ daybook_intro
        ∷ []
        ∷ [])
      ++ table
          (txt "Date"
            ∷ txt "No."
            ∷ txt "Type"
            ∷ txt "Debit (Dr)"
            ∷ txt "Credit (Cr)"
            ∷ txt "Amount ₹"
            ∷ txt "What happened"
            ∷ [])
          (l ∷ l ∷ l ∷ l ∷ l ∷ r ∷ l ∷ []) rows
      ++ ([]
          ∷ cat (
              txt "*"
              ∷ str_of (length b.vouchers)
              ∷ txt " entries: "
              ∷ join (txt " · ")
                  (map (λ k. cat (k.0 ∷ txt " " ∷ str_of k.1 ∷ [])) (sorted_kinds kinds))
              ∷ txt ".*"
              ∷ [])
          ∷ []
          ∷ []))
