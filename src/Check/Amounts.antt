-- ===== src/Check/Amounts.antt =====
-- `fmt_in` of docs/accounting/reference-books/check_md.py, for an amount that is not below nil.
use rukka_folio.Prelude.{
  ◌≡◌, refl, sym, ◌∙◌, ℕ, zero, suc, ◌-◌, ◌/◌, ◌%◌, ◌<◌, ◌==◌, ltb, ltb→lt, true, List, [], ◌∷◌,
  ◌++◌, if◌then◌else◌, length, take, drop, pos, Text, join, str_of, pad2, arith, Bool-cases, inl,
  inr, length-take-le, append-nil,
}
use rukka_folio.Money.{head_groups, grouped, fmt_abs, fmt_zero, fmt_with}
use rukka_folio.Check.ReadBack.{fmt_with-pos}

-- `if head: parts.insert(0, head)`
abbrev pub with_head : Text → List Text → List Text
with_head [] parts = parts
with_head (c ∷ s) parts = (c ∷ s) ∷ parts

-- The `while len(head) > 2` loop and the `insert` behind it; the length of `head` is fuel enough.
unfoldable pub pairs_from : ℕ → Text → List Text → List Text
pairs_from zero head parts = with_head head parts
pairs_from (suc fuel) head parts =
    let n = length head - 2 in
    let more = pairs_from fuel (take n head) (drop n head ∷ parts) in
    if ltb 2 (length head) then more else with_head head parts

-- `fmt_in(p)`
unfoldable pub fmt_in : ℕ → Text
unfolding pairs_from str_of pad2 join
fmt_in p =
    let s = str_of (p / 100) in
    let n = length s - 3 in
    let whole =
      if ltb 3 (length s)
      then join (b',' ∷ []) (pairs_from (length (take n s)) (take n s) []) ++ (b',' ∷ drop n s)
      else s in
    whole ++ (if p % 100 == 0 then [] else b'.' ∷ pad2 (p % 100))

some_head :
    (head : Text) (parts : List Text) → 0 < length head → with_head head parts ≡ head ∷ parts
some_head [] parts h = absurd (omega arith)
some_head (c ∷ s) parts h = refl

pairs_from-head_groups :
    (fuel : ℕ) (head : Text) (parts : List Text)
    → 0 < length head
    → pairs_from fuel head parts ≡ head_groups fuel head parts
unfolding pairs_from head_groups
pairs_from-head_groups zero head parts h = some_head head parts h
pairs_from-head_groups (suc fuel) head parts h = elim (Bool-cases (ltb 2 (length head))) [
  | inl e ↦
      let n = length head - 2 in
      let long = ltb→lt 2 (length head) e in
      let front : length (take n head) ≡ n = length-take-le n head (omega arith) in
      rw e (pairs_from-head_groups fuel (take n head) (drop n head ∷ parts) (omega arith))
  | inr e ↦ rw e (some_head head parts h)
]

whole_grouped :
    (s : Text)
    → (if ltb 3 (length s)
        then join
            (b',' ∷ [])
            (pairs_from (length (take (length s - 3) s)) (take (length s - 3) s) [])
          ++ (b',' ∷ drop (length s - 3) s)
        else s)
      ≡ grouped s
unfolding grouped
whole_grouped s = elim (Bool-cases (ltb 3 (length s))) [
  | inl e ↦
      let n = length s - 3 in
      let long = ltb→lt 3 (length s) e in
      let front : length (take n s) ≡ n = length-take-le n s (omega arith) in
      rw (e, pairs_from-head_groups (length (take n s)) (take n s) [] (omega arith)) refl
  | inr e ↦ rw e refl
]

fmt_in-fmt_abs : (n : ℕ) → fmt_in n ≡ fmt_abs n
unfolding fmt_in fmt_abs
fmt_in-fmt_abs n = elim (Bool-cases (n % 100 == 0)) [
  | inl e ↦ rw (whole_grouped (str_of (n / 100)), e) (append-nil (grouped (str_of (n / 100))))
  | inr e ↦ rw (whole_grouped (str_of (n / 100)), e) refl
]

-- For every amount that is not below nil, `fmt_in` of the checker prints what `fmt` of the builder
-- prints with `show_zero`.
pub fmt_in-fmt_zero : (n : ℕ) → fmt_in n ≡ fmt_zero (pos n)
unfolding fmt_zero fmt_with fmt_in
fmt_in-fmt_zero zero = refl
fmt_in-fmt_zero (suc n) = fmt_in-fmt_abs (suc n) ∙ sym (fmt_with-pos true true n)
