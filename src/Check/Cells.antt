-- ===== src/Check/Cells.antt =====
-- How docs/accounting/reference-books/check_md.py reads the cells of a printed page: `clean`, `paise`,
-- `signed`, `bal_paise`, `cells`, `side` and `split_cell`. A line of a page has no newline in it, and its
-- digits are ASCII digits.
use rukka_folio.Prelude.{
  ℕ, zero, suc, ◌+◌, ◌*◌, ◌-◌, Bool, true, false, ◌&&◌, ◌||◌, ltb, leb, ◌==◌, List, [], ◌∷◌,
  if◌then◌else◌, length, take, drop, every, ℤ, pos, neg, is_pos, is_neg, Text, txt, same,
  starts_with, Option, none, some,
}
use rukka_folio.Money.{em_dash, minus_sign}
use rukka_folio.Fault.{Result, ok, ◌>>=◌, ◌>>◌, guard, value_error}
use rukka_folio.Report.BalanceSheet.Partners.{int_of, without_stars, without_commas}
use rukka_folio.Report.Family.{ends_with}

-- `c.isspace()`, which is also what `\s` matches.
abbrev pub is_space : ℕ → Bool
is_space c =
    (leb 9 c && leb c 13)
    || (leb 28 c && leb c 32)
    || (c == 133)
    || (c == 160)
    || (c == 5760)
    || (leb 8192 c && leb c 8202)
    || (c == 8232)
    || (c == 8233)
    || (c == 8239)
    || (c == 8287)
    || (c == 12288)

-- `s.lstrip()`, and `s.strip()`
unfoldable pub lstrip : Text → Text
lstrip [] = []
lstrip (c ∷ s) = let rest = lstrip s in if is_space c then rest else c ∷ s

abbrev pub before_space : ℕ → Text → Text
before_space c [] = if is_space c then [] else c ∷ []
before_space c (d ∷ t) = c ∷ d ∷ t

unfoldable pub rstrip : Text → Text
rstrip [] = []
rstrip (c ∷ s) = before_space c (rstrip s)

unfoldable pub strip : Text → Text
unfolding lstrip rstrip
strip s = rstrip (lstrip s)

-- The text behind the first `stop`.
unfoldable pub behind : Text → Text → Option Text
behind stop [] = if same stop [] then some [] else none
behind stop (c ∷ s) =
    let later = behind stop s in
    if starts_with (c ∷ s) stop then some (drop (length stop) (c ∷ s)) else later

-- `re.sub(start + ".*?" + stop, "", s)`, on fuel: the length of the text is enough.
unfoldable pub without_tagged : ℕ → Text → Text → Text → Text
unfolding behind
without_tagged zero start stop s = s
without_tagged (suc fuel) start stop [] = []
without_tagged (suc fuel) start stop (c ∷ s) =
    let kept = c ∷ without_tagged fuel start stop s in
    if starts_with (c ∷ s) start
    then elim (behind stop (drop (length start) (c ∷ s))) [
      | none ↦ kept
      | some rest ↦ without_tagged fuel start stop rest
    ]
    else kept

-- `clean(cell)`
unfoldable pub clean : Text → Text
unfolding without_tagged without_stars strip txt
clean cell =
    let one = without_tagged (length cell) (txt "<br><em>") (txt "</em>") cell in
    let two = without_tagged (length one) (txt "<em>") (txt "</em>") one in
    strip (without_stars two)

abbrev pub is_digit : ℕ → Bool
is_digit c = ltb 47 c && ltb c 58

-- `re.sub(r"^=\s*", "", s)`, `s.replace("₹", "")` and `s.lstrip("−-")`
abbrev pub without_equals : Text → Text
without_equals [] = []
without_equals (c ∷ s) = if c == 61 then lstrip s else c ∷ s

unfoldable pub without_rupees : Text → Text
without_rupees [] = []
without_rupees (c ∷ s) = let rest = without_rupees s in if c == 8377 then rest else c ∷ rest

abbrev pub is_minus : ℕ → Bool
is_minus c = (c == minus_sign) || (c == 45)

unfoldable pub without_signs : Text → Text
without_signs [] = []
without_signs (c ∷ s) = let rest = without_signs s in if is_minus c then rest else c ∷ s

abbrev pub has_sign : Text → Bool
has_sign [] = false
has_sign (c ∷ s) = is_minus c

-- The two groups of `AMOUNT`: what stands before the point, and what stands behind it, if there is one.
unfoldable pub split_point : Text → Text × Option Text
split_point [] = ([], none)
split_point (c ∷ s) = let (u, v) = split_point s in if c == 46 then ([], some s) else (c ∷ u, v)

unfoldable pub split_commas : Text → List Text
split_commas [] = [] ∷ []
split_commas (c ∷ s) = elim (split_commas s) [
  | [] ↦ (c ∷ []) ∷ []
  | p ∷ ps ↦ if c == 44 then [] ∷ p ∷ ps else (c ∷ p) ∷ ps
]

abbrev pub is_group : ℕ → Text → Bool
is_group least s = leb least (length s) && (leb (length s) 3 && every is_digit s)

-- `\d{1,3}(?:,\d{2,3})*`
abbrev pub grouped_ok : List Text → Bool
grouped_ok [] = false
grouped_ok (p ∷ ps) = is_group 1 p && every (is_group 2) ps

unfoldable pub whole_ok : Text → Bool
unfolding split_commas
whole_ok s = grouped_ok (split_commas s) || (ltb 0 (length s) && every is_digit s)

abbrev pub part_ok : Option Text → Bool
part_ok none = true
part_ok (some s) = (length s == 2) && every is_digit s

abbrev pub part_value : Option Text → Result ℕ
part_value none = ok 0
part_value (some s) = int_of s

-- The value of a text that `AMOUNT` matches; another text raises.
unfoldable pub amount_of : Text → Result ℕ
unfolding split_point whole_ok int_of without_commas
amount_of s = do
  let groups = split_point s
  guard (whole_ok groups.0 && part_ok groups.1) value_error
  whole ← int_of (without_commas groups.0)
  part ← part_value groups.1
  ok (whole * 100 + part)

-- `paise(cell)`
unfoldable pub paise : Text → Result ℤ
unfolding clean without_rupees without_signs amount_of strip
paise cell =
    let s = strip (without_rupees (without_equals (clean cell))) in
    if same s em_dash || (same s [] || same s (45 ∷ []))
    then ok (pos 0)
    else (do n ← amount_of (without_signs s); ok (if has_sign s then neg (pos n) else pos n))

-- `side(bal)`
unfoldable pub side : ℤ → Text
unfolding txt
side bal = if is_pos bal then txt "Dr" else if is_neg bal then txt "Cr" else em_dash

-- `bal_paise(cell)`
unfoldable pub bal_paise : Text → Result ℤ
unfolding clean paise txt
bal_paise cell =
    let c = clean cell in
    if ends_with c (txt " Cr") then (do ok (neg (← paise (take (length c - 3) c)))) else paise c
