-- ===== src/Report/EntryKinds.antt =====
-- `entry_kinds` of docs/accounting/reference-books/build.py: the closed list of the kinds of entry that
-- the books of a case hold.
pub mod Table
use rukka_folio.Prelude.{
  Bool, true, false, not, ◌&&◌, ◌||◌, List, [], ◌∷◌, ◌++◌, if◌then◌else◌, length, ◌==◌, is_pos, map,
  keep, some_of, mem, Text, txt, cat, join, same, Option, none, some,
}
use rukka_folio.Kinds.{advance, loan, is_kind}
use rukka_folio.Fault.{Result, ok, err, ◌>>=◌, ◌>>◌, guard, or_key_error, key_error, no_entry_kind}
use rukka_folio.Book.{Account, Book, Line, Voucher, find_account}
use rukka_folio.Report.Daybook.Page.{text_before}

-- `ENTRY_KINDS`; the words of a plain Journal are the book's own.
abbrev pub EntryWords : Type 0
EntryWords = List (Text × Option Text)

unfoldable pub entry_words : EntryWords
unfolding txt
entry_words =
    (txt "Receipt", some (txt "a bank or cash movement"))
    ∷ (txt "Payment", some (txt "a bank or cash movement"))
    ∷ (txt "Journal (credit given)", some (txt "credit with a named party"))
    ∷ (txt "Journal (credit taken)", some (txt "credit with a named party"))
    ∷ (txt "loan", some (txt "a loan instalment as the bank paid it"))
    ∷ (txt "Contra", some (txt "a transfer between own accounts"))
    ∷ (txt "Journal (advance settled)", some (txt "an advance or its settlement"))
    ∷ (txt "advance", some (txt "an advance or its settlement"))
    ∷ (txt "Journal (paid by partner)", some (txt "a partner's own-pocket payment"))
    ∷ (
      txt "Journal (paid by family)",
      some (txt "a payment the joint family made for a sub-family"),
    )
    ∷ (txt "Payment (from a fund)", some (txt "a payment from a fund"))
    ∷ (txt "Journal (interest added)", some (txt "interest the bank adds to a deposit"))
    ∷ (txt "Journal", none)
    ∷ (txt "Journal (settled)", some (txt "a running account settled at year end"))
    ∷ (txt "Journal (set off)", some (txt "a deposit held set off against what is owed"))
    ∷ (txt "Journal (deposit forfeited)", some (txt "a deposit held kept as income"))
    ∷ (txt "Journal (retention released)", some (txt "retention money released"))
    ∷ (txt "Journal (from a fund)", some (txt "a fund's money moved for its purpose at year end"))
    ∷ (txt "Journal (written off)", some (txt "an amount written off"))
    ∷ (txt "Journal (correction)", some (txt "a correction"))
    ∷ []

-- The keys of the lines of a receipt or a payment: an advance, or a loan that is paid back.
unfoldable pub line_keys : List Account → List Line → Result (List Text)
unfolding find_account txt
line_keys accounts [] = ok []
line_keys accounts (x ∷ xs) =
    let rest = line_keys accounts xs in
    do
      a ← or_key_error (find_account x.0 accounts)
      more ← rest
      ok (
          if is_kind a.kind advance
          then txt "advance" ∷ more
          else if is_kind a.kind loan && is_pos x.1
          then txt "loan" ∷ more
          else more)

-- One round of the loop over the vouchers.
unfoldable pub voucher_keys : List Account → Voucher → Result (List Text)
unfolding line_keys entry_words mem txt
voucher_keys accounts w = do
  keys ←
      (if same w.vtype (txt "Receipt") || same w.vtype (txt "Payment")
        then line_keys accounts w.lines
        else ok [])
  guard (mem w.vtype (map (λ (e : Text × Option Text). e.0) entry_words)) no_entry_kind
  ok (w.vtype ∷ keys)

unfoldable pub book_keys : List Account → List Voucher → Result (List Text)
unfolding voucher_keys
book_keys accounts [] = ok []
book_keys accounts (w ∷ ws) =
    let rest = book_keys accounts ws in
    do keys ← voucher_keys accounts w; more ← rest; ok (keys ++ more)

-- `seen`; it is only asked what it has.
unfoldable pub seen_keys : List Book → Result (List Text)
unfolding book_keys
seen_keys [] = ok []
seen_keys (b ∷ bs) =
    let rest = seen_keys bs in
    do keys ← book_keys b.accounts b.vouchers; more ← rest; ok (keys ++ more)

-- `sorted({...})` of texts.
unfoldable pub insert_once : Text → List Text → List Text
unfolding text_before
insert_once s [] = s ∷ []
insert_once s (t ∷ rest) =
    let later = t ∷ insert_once s rest in
    if same s t then t ∷ rest else if text_before t s then later else s ∷ t ∷ rest

unfoldable pub sorted_set : List Text → List Text
unfolding insert_once
sorted_set [] = []
sorted_set (s ∷ rest) = insert_once s (sorted_set rest)

-- The words of a plain Journal, of the books that have one.
unfoldable pub journal_words : List Book → Text
unfolding sorted_set join txt
journal_words books = join (txt " or ") (
    sorted_set (
      map (λ (b : Book). b.journal_word)
        (keep (λ (b : Book). some_of (λ (w : Voucher). same w.vtype (txt "Journal")) b.vouchers)
          books)))

-- `w or " or ".join(...)`
abbrev pub word_or : Option Text → Text → Text
word_or none journal = journal
word_or (some w) journal = w

-- The loop over `ENTRY_KINDS`: each word once, in the order of the table.
unfoldable pub kind_words : EntryWords → List Text → Text → List Text → List Text
unfolding mem
kind_words [] seen journal words = words
kind_words ((key, w) ∷ rest) seen journal words =
    let word = word_or w journal in
    let skipped = kind_words rest seen journal words in
    let added = kind_words rest seen journal (words ++ (word ∷ [])) in
    if mem key seen && not (mem word words) then added else skipped

-- `words[:-1]` with the last one.
abbrev pub split_last : Text → List Text → List Text × Text
split_last w [] = ([], w)
split_last w (v ∷ rest) = let (front, last) = split_last v rest in (w ∷ front, last)

unfoldable pub joined_words : List Text → Result Text
unfolding join txt
joined_words [] = err key_error
joined_words (w ∷ []) = ok w
joined_words (w ∷ v ∷ rest) =
    let (front, last) = split_last w (v ∷ rest) in
    ok (cat (join (txt ", ") front ∷ txt ", or " ∷ last ∷ []))

-- `entry_kinds(case)`
unfoldable pub entry_kinds : List Book → Result Text
unfolding seen_keys kind_words joined_words journal_words entry_words
entry_kinds books = do
  seen ← seen_keys books
  joined_words (kind_words entry_words seen (journal_words books) [])
