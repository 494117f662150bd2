-- ===== src/Check/Rules/Further.antt =====
-- The rules of some types, behind the `if` over `vtype` in `parse_book` of
-- docs/accounting/reference-books/check_md.py, and all that is given to `ok` from that `if` to where the entry is kept.
-- The regular expressions' `\S`, `\d` and `\w` are read on ASCII text.
use rukka_folio.Prelude.{
  ℕ, Bool, true, false, not, ◌&&◌, ◌||◌, ltb, leb, ◌==◌, List, [], ◌∷◌, ◌++◌, if◌then◌else◌, length,
  take, drop, every, some_of, ◌-◌, ◌+◌, Text, txt, same, starts_with, lower, Option, none, some,
}
use rukka_folio.Dates.{Date}
use rukka_folio.Fault.{Result, ok, ◌>>=◌}
use rukka_folio.Book.{Line}
use rukka_folio.Check.Cells.{is_digit, is_space, behind}
use rukka_folio.Check.Entries.{pdate, is_some}
use rukka_folio.Check.Book.{Head, Read}
use rukka_folio.Check.Rules.{type_in, type_rule}

abbrev pub is_word : ℕ → Bool
is_word c = is_digit c || ((ltb 64 c && ltb c 91) || ((ltb 96 c && ltb c 123) || (c == 95)))

-- The text before the first blank.
unfoldable pub unbroken : Text → Text
unbroken [] = []
unbroken (c ∷ s) = let rest = unbroken s in if is_space c then [] else c ∷ rest

-- `\S+-\d{3}`, for a text without blanks
unfoldable pub is_number : Text → Bool
unfolding starts_with txt
is_number s =
    let end = drop (length s - 4) s in
    leb 5 (length s) && (starts_with end (txt "-") && every is_digit (drop 1 end))

-- `\d{2} \w{3} \d{4}`
unfoldable pub is_day : Text → Bool
unfolding starts_with txt
is_day s =
    (length s == 11)
    && (every is_digit (take 2 s)
        && (starts_with (drop 2 s) (txt " ")
            && (every is_word (take 3 (drop 3 s))
                && (starts_with (drop 6 s) (txt " ") && every is_digit (drop 7 s)))))

-- The groups of a match that begins at the text's first character; the number is followed by a blank,
-- so that it goes on to the first one.
unfoldable pub named_here : Text → Option (Text × Text)
unfolding unbroken is_number is_day starts_with txt
named_here s =
    let vid = unbroken (drop 6 s) in
    let rest = drop (6 + length vid) s in
    let day = take 11 (drop 4 rest) in
    if starts_with s (txt "Entry ")
      && (is_number vid && (starts_with rest (txt " of ") && is_day day))
    then some (vid, day)
    else none

-- `re.search(r"Entry (\S+-\d{3}) of (\d{2} \w{3} \d{4})", s)`
unfoldable pub named_entry : Text → Option (Text × Text)
unfolding named_here
named_entry [] = none
named_entry (c ∷ s) =
    let later = named_entry s in
    elim (named_here (c ∷ s)) [ some groups ↦ some groups | none ↦ later ]

-- `any(w["vid"] == vid and w["date"] == pdate(day) for w in before)`
unfoldable pub any_named : Text → Result Date → List Read → Result Bool
unfolding same
any_named vid day [] = ok false
any_named vid day (w ∷ ws) =
    let rest = any_named vid day ws in
    if same w.vid vid then (do d ← day; if w.date == d then ok true else rest) else rest

unfoldable pub correction_rule : List Read → Text → Text → Result Bool
unfolding named_entry any_named pdate same
correction_rule before vid narr = elim (named_entry narr) [
  | none ↦ ok false
  | some groups ↦ (do
    found ← any_named groups.0 (pdate groups.1) before
    ok (found && not (same groups.0 vid)))
]

-- `part in s.lower()`
abbrev pub says : Text → Text → Bool
unfolding behind
says part s = is_some (behind part (lower s))

module _ (heads : List Head) where
  -- `len(lines) == 1 and bk.type[lines[0][0]] == word and p(lines[0][0])`
  unfoldable pub alone : Text → (Text → Bool) → List Line → Result Bool
  unfolding type_in
  alone word p [] = ok false
  alone word p (l ∷ []) = do holds ← type_in heads (word ∷ []) l.0; ok (holds && p l.0)
  alone word p (l ∷ m ∷ ls) = ok false

  abbrev pub anything : Text → Bool
  anything n = true

  unfoldable pub forfeit_rule : List Line → List Line → Result Bool
  unfolding alone txt
  forfeit_rule drs crs = do
    held ← alone (txt "Deposit held") anything drs
    if held then alone (txt "Income") (says (txt "forfeited")) crs else ok false

  -- What is given to `ok`, when the test above it holds.
  abbrev pub asked : Bool → Result Bool → Result (List Bool)
  asked test rule = if test then (do holds ← rule; ok (holds ∷ [])) else ok []

  module _ (before : List Read) (vid : Text) (vtype : Text) (narr : Text) (drs : List Line)
      (crs : List Line) where
    unfoldable pub further_rules : Result (List Bool)
    unfolding correction_rule alone forfeit_rule txt same
    further_rules = do
      a ← asked (same vtype (txt "Correction")) (correction_rule before vid narr)
      b ←
          asked (same vtype (txt "Written off"))
            (alone (txt "Expense") (says (txt "written off")) drs)
      c ← asked (same vtype (txt "Deposit set off")) (alone (txt "Deposit held") anything drs)
      d ← asked (same vtype (txt "Deposit forfeited")) (forfeit_rule drs crs)
      e ← asked (same vtype (txt "Retention released")) (alone (txt "Retention held") anything crs)
      ok (a ++ (b ++ (c ++ (d ++ e))))

    -- What is given to `ok` by the rule of the type and by these, in their order.
    unfoldable pub type_checks : Result (List Bool)
    unfolding type_rule further_rules
    type_checks = do first ← type_rule heads vtype drs crs; more ← further_rules; ok (first ∷ more)

-- The types that have a further rule.
unfoldable pub further_types : List Text
unfolding txt
further_types =
    txt "Correction"
    ∷ txt "Written off"
    ∷ txt "Deposit set off"
    ∷ txt "Deposit forfeited"
    ∷ txt "Retention released"
    ∷ []

abbrev pub has_further : Text → Bool
unfolding further_types same
has_further vtype = some_of (same vtype) further_types
