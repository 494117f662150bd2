-- ===== src/Report/Family.antt =====
-- The family summary of docs/accounting/reference-books/build.py: which books keep accounts named after
-- each other, and the rows that the two books of a pair have on them.
pub mod Pair
pub mod Summary
pub mod Page
pub mod Meets
use rukka_folio.Prelude.{
  ℕ, ◌-◌, Bool, true, false, not, ◌&&◌, ◌||◌, List, [], ◌∷◌, ◌++◌, if◌then◌else◌, ◌==◌, ltb, leb, ℤ,
  ◌-ℤ◌, neg, is_pos, is_neg, is_nil, length, drop, take, map, keep, some_of, mem, Text, txt, cat,
  same, starts_with, Option, none, some,
}
use rukka_folio.Dates.{Date}
use rukka_folio.Money.{fmt}
use rukka_folio.Fault.{Result, ok, err, ◌>>=◌, ◌>>◌, guard, mirror_missing}
use rukka_folio.Book.{Account, Row, Book}
use rukka_folio.Report.Daybook.Page.{text_before}

-- The fields of `Case` that the summary reads.
pub record Case : Type 0 where
  pub books : List Book
  pub summary_note : Text

-- `s.endswith(t)`
abbrev pub ends_with : Text → Text → Bool
ends_with s t = leb (length t) (length s) && same (drop (length s - length t) s) t

-- `accounts_for(b, other)`, the accounts themselves.
unfoldable pub accounts_for : Book → Book → List Account
unfolding mem txt
accounts_for b other =
    let n = other.name in
    let names =
      cat (n ∷ txt " A/c" ∷ [])
      ∷ cat (txt "Udhaar – " ∷ n ∷ txt " A/c" ∷ [])
      ∷ cat (txt "Income from " ∷ n ∷ txt " A/c" ∷ [])
      ∷ cat (txt "Capital A/c – " ∷ n ∷ [])
      ∷ cat (txt "Drawings A/c – " ∷ n ∷ [])
      ∷ [] in
    keep (λ (a : Account). mem a.name names) b.accounts

-- `names.get(n)`: the last book of that name.
unfoldable pub find_book : Text → List Book → Option Book
find_book n [] = none
find_book n (b ∷ rest) = elim (find_book n rest) [
  | some later ↦ some later
  | none ↦ if same b.name n then some b else none
]

-- `other`: the name of the book that an account is named after.
unfoldable pub other_name : Text → Option Text
unfolding starts_with txt
other_name n =
    let stem = take (length n - 4) n in
    if ends_with n (txt " A/c")
    then some
        (if starts_with stem (txt "Udhaar – ") then drop (length (txt "Udhaar – ")) stem else stem)
    else none

abbrev pub Pairs : Type 0
Pairs = List (Book × Book)

-- The pair is there, either way round.
abbrev pub is_paired : Text → Text → Pairs → Bool
is_paired n m = some_of (λ (p : Book × Book).
    (same p.0.name n && same p.1.name m) || (same p.0.name m && same p.1.name n))

-- One round of the inner loop of `link_pairs`, over the accounts of a book.
unfoldable pub link_account : List Book → Book → Account → Pairs → Result Pairs
unfolding accounts_for find_book other_name
link_account books b a pairs = elim (other_name a.name) [
  | none ↦ ok pairs
  | some other ↦ elim (find_book other books) [
    | none ↦ ok pairs
    | some ob ↦
        if same other b.name
        then ok pairs
        else guard (not (length (accounts_for ob b) == 0)) mirror_missing
          >> ok (if is_paired ob.name b.name pairs then pairs else pairs ++ ((b, ob) ∷ []))
  ]
]

unfoldable pub link_accounts : List Book → Book → List Account → Pairs → Result Pairs
unfolding link_account
link_accounts books b [] pairs = ok pairs
link_accounts books b (a ∷ rest) pairs = do
  more ← link_account books b a pairs
  link_accounts books b rest more

unfoldable pub link_books : List Book → List Book → Pairs → Result Pairs
unfolding link_accounts
link_books books [] pairs = ok pairs
link_books books (b ∷ rest) pairs = do
  more ← link_accounts books b b.accounts pairs
  link_books books rest more

-- `link_pairs(case)`
unfoldable pub link_pairs : Case → Result Pairs
unfolding link_books
link_pairs c = link_books c.books c.books []

-- An entry of a pair in one book.
pub record PairRow : Type 0 where
  pub date : Date
  pub x : ℤ
  pub vid : Text
  pub note : Text

abbrev pub pair_row : Row → PairRow
pair_row k = record { date = k.date; x = k.dr -ℤ k.cr; vid = k.vid; note = k.vch.narration }

-- `key=lambda x: (x[0], x[2])`; `sorted` keeps the order of equal keys.
unfoldable pub row_before : PairRow → PairRow → Bool
unfolding text_before
row_before p q = ltb p.date q.date || ((p.date == q.date) && text_before p.vid q.vid)

unfoldable pub insert_row : PairRow → List PairRow → List PairRow
unfolding row_before
insert_row p [] = p ∷ []
insert_row p (q ∷ rest) = if row_before q p then q ∷ insert_row p rest else p ∷ q ∷ rest

unfoldable pub sort_rows : List PairRow → List PairRow
unfolding insert_row
sort_rows [] = []
sort_rows (p ∷ rest) = insert_row p (sort_rows rest)

abbrev pub rows_on : List Account → List PairRow
rows_on [] = []
rows_on (a ∷ rest) = map pair_row a.rows ++ rows_on rest

-- `pair_rows(bk, names)`, of the accounts with those names.
unfoldable pub pair_rows : List Account → List PairRow
unfolding sort_rows
pair_rows accounts = sort_rows (rows_on accounts)

-- `dr_cr(x, nil)`
unfoldable pub dr_cr : ℤ → Bool → Text × Text
unfolding fmt
dr_cr x nil = (
  if is_pos x then fmt x else if nil && is_nil x then b'0' ∷ [] else [],
  if is_neg x then fmt (neg x) else [],
)
