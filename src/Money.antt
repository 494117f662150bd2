-- ===== src/Money.antt =====
-- The money helpers of docs/accounting/reference-books/build.py: `R`, `fmt` and `half_up`. An amount
-- is a whole number of paise.
pub mod Rounding
mod Tests
use rukka_folio.Prelude.{
  ℕ, zero, suc, ◌+◌, ◌-◌, ◌*◌, ◌/◌, ◌%◌, Bool, true, false, List, [], ◌∷◌, ◌++◌, ltb, ◌==◌,
  if◌then◌else◌, ℤ, pos, pos_part, neg_part, ◌+ℤ◌, ◌*ℤ◌, is_nil, is_neg, length, take, drop, Text,
  txt, join, str_of, pad2,
}

-- Rupees and paise as integer paise.
unfoldable pub R : ℤ → ℤ → ℤ
unfolding ◌+ℤ◌ ◌*ℤ◌
R rupees paise = rupees *ℤ pos 100 +ℤ paise

-- The `while len(head) > 2` loop of `fmt`, with the `insert` behind it; the length of `head` is fuel
-- enough, as each round takes two characters.
unfoldable pub head_groups : ℕ → Text → List Text → List Text
head_groups zero head parts = head ∷ parts
head_groups (suc fuel) head parts =
    let n = length head - 2 in
    let more = head_groups fuel (take n head) (drop n head ∷ parts) in
    if ltb 2 (length head) then more else head ∷ parts

-- `s` with the Indian commas: a last group of three, the others of two.
unfoldable pub grouped : Text → Text
unfolding head_groups join
grouped s =
    let n = length s - 3 in
    if ltb 3 (length s)
    then join (b',' ∷ []) (head_groups (length (take n s)) (take n s) []) ++ (b',' ∷ drop n s)
    else s

-- An amount above zero: rupees in Indian groups, and the paise if there are any.
unfoldable pub fmt_abs : ℕ → Text
unfolding grouped str_of pad2
fmt_abs p =
    let r = p / 100 in
    let ps = p % 100 in
    if ps == 0 then grouped (str_of r) else grouped (str_of r) ++ (b'.' ∷ pad2 ps)

-- U+2014 and U+2212.
abbrev pub em_dash : Text
em_dash = 0x2014 ∷ []

abbrev pub minus_sign : ℕ
minus_sign = 0x2212

-- `fmt(p, dash, show_zero)`
unfoldable pub fmt_with : Bool → Bool → ℤ → Text
unfolding fmt_abs
fmt_with dash show_zero p =
    if is_nil p
    then (if show_zero then b'0' ∷ [] else if dash then em_dash else b'0' ∷ [])
    else if is_neg p
    then minus_sign ∷ fmt_abs (neg_part p)
    else fmt_abs (pos_part p)

-- `fmt(p)` and `fmt(p, show_zero=True)`
unfoldable pub fmt : ℤ → Text
unfolding fmt_with
fmt = fmt_with true false

unfoldable pub fmt_zero : ℤ → Text
unfolding fmt_with
fmt_zero = fmt_with true true

-- The `assert` of `half_up` is a hypothesis of its lemmas: its operands are naturals here.
unfoldable pub half_up : ℕ → ℕ → ℕ
half_up numer denom = (2 * numer + denom) / (2 * denom)
