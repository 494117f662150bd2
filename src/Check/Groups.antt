-- ===== src/Check/Groups.antt =====
-- The whole part of every amount that `fmt` prints matches `AMOUNT`.
use rukka_folio.Prelude.{
  ◌≡◌, refl, ◌∙◌, ap, ℕ, zero, suc, ◌-◌, ◌<◌, ◌≤◌, ◌==◌, ltb, ltb→lt, Bool, true, false, ◌||◌,
  Bool-cases, inl, inr, List, [], ◌∷◌, ◌++◌, All, every, take, drop, Text, length, length-take-le,
  append_assoc, join, arith,
}
use rukka_folio.Money.{head_groups, grouped}
use rukka_folio.Report.BalanceSheet.Digits.{IsDigit}
use rukka_folio.Check.Cells.{is_digit, split_commas, is_group, whole_ok}

-- A group of digits, `least` to three of them.
abbrev IsGroup : ℕ → Text → Type 0
IsGroup least p = (least ≤ length p) × (length p ≤ 3) × All IsDigit p

All-take : (n : ℕ) (s : Text) → All IsDigit s → All IsDigit (take n s)
All-take zero s h = tt
All-take (suc n) [] h = tt
All-take (suc n) (c ∷ s) h = (h.0, All-take n s h.1)

All-drop : (n : ℕ) (s : Text) → All IsDigit s → All IsDigit (drop n s)
All-drop zero s h = h
All-drop (suc n) [] h = tt
All-drop (suc n) (c ∷ s) h = All-drop n s h.1

length-drop : (n : ℕ) (s : Text) → length (drop n s) ≡ length s - n
length-drop zero s = omega arith
length-drop (suc n) [] = omega arith
length-drop (suc n) (c ∷ s) = omega (arith, length-drop n s)

digit_test : (c : ℕ) → IsDigit c → is_digit c ≡ true
digit_test c h = let (low, high) = h in ground arith

digit-no_comma : (c : ℕ) → IsDigit c → (c == 44) ≡ false
digit-no_comma c h = let (low, high) = h in ground arith

pub every-digits : (s : Text) → All IsDigit s → every is_digit s ≡ true
every-digits [] h = refl
every-digits (c ∷ s) h = rw (digit_test c h.0, every-digits s h.1) refl

is_group-IsGroup : (least : ℕ) (p : Text) → IsGroup least p → is_group least p ≡ true
is_group-IsGroup least p (low, high, digits) = rw (every-digits p digits) (ground arith)

split_commas-digits : (s : Text) → All IsDigit s → split_commas s ≡ s ∷ []
unfolding split_commas
split_commas-digits [] h = refl
split_commas-digits (c ∷ s) h = rw (split_commas-digits s h.1, digit-no_comma c h.0) refl

-- A text is split into one piece or more.
some_piece : (s : Text) → (p : Text) × (ps : List Text) × (split_commas s ≡ p ∷ ps)
unfolding split_commas
some_piece [] = ([], [], refl)
some_piece (c ∷ s) =
    let (p, ps, e) = some_piece s in
    elim (Bool-cases (c == 44)) [
      | inl k ↦ ([], p ∷ ps, rw (e, k) refl)
      | inr k ↦ (c ∷ p, ps, rw (e, k) refl)
    ]

split_commas-append :
    (p t : Text) → All IsDigit p → split_commas (p ++ (44 ∷ t)) ≡ p ∷ split_commas t
unfolding split_commas
split_commas-append [] t h = let (q, qs, e) = some_piece t in rw e refl
split_commas-append (c ∷ p) t h = rw (split_commas-append p t h.1, digit-no_comma c h.0) refl

split_commas-join :
    (p : Text) (ps : List Text) (t : Text)
    → All (All IsDigit) (p ∷ ps)
    → split_commas (join (44 ∷ []) (p ∷ ps) ++ (44 ∷ t)) ≡ (p ∷ ps) ++ split_commas t
unfolding join
split_commas-join p [] t h = split_commas-append p t h.0
split_commas-join p (q ∷ ps) t h = rw (append_assoc p (44 ∷ join (44 ∷ []) (q ∷ ps)) (44 ∷ t)) (
    split_commas-append p (join (44 ∷ []) (q ∷ ps) ++ (44 ∷ t)) h.0
    ∙ ap (λ qs. p ∷ qs) (split_commas-join q ps t h.1))

-- The groups that the loop of `fmt` makes: the first of one to three digits, the others of two or three.
groups_made :
    (fuel : ℕ) (head : Text) (parts : List Text)
    → length head ≤ fuel
    → 0 < length head
    → All IsDigit head
    → All (IsGroup 2) parts
    → (p : Text) × (ps : List Text) × (head_groups fuel head parts ≡ p ∷ ps)
      × IsGroup 1 p
      × All (IsGroup 2) ps
unfolding head_groups
groups_made zero head parts enough some_head digits h = absurd (omega arith)
groups_made (suc fuel) head parts enough some_head digits h =
    elim (Bool-cases (ltb 2 (length head))) [
      | inl e ↦
          let long = ltb→lt 2 (length head) e in
          let n = length head - 2 in
          let front : length (take n head) ≡ n = length-take-le n head (omega arith) in
          let back : length (drop n head) ≡ 2 = omega (arith, length-drop n head) in
          let (p, ps, made, first, others) =
            groups_made fuel (take n head) (drop n head ∷ parts) (omega arith) (omega arith)
              (All-take n head digits) ((omega arith, omega arith, All-drop n head digits), h) in
          (p, ps, rw e made, first, others)
      | inr e ↦
          let short = not_long (length head) e in
          (head, parts, rw e refl, (omega arith, omega arith, digits), h)
    ]
  where
    not_long : (n : ℕ) → ltb 2 n ≡ false → n ≤ 2
    not_long n e = ground arith

every-IsGroup : (ps : List Text) → All (IsGroup 2) ps → every (is_group 2) ps ≡ true
every-IsGroup [] h = refl
every-IsGroup (p ∷ ps) h = rw (is_group-IsGroup 2 p h.0, every-IsGroup ps h.1) refl

groups-digits : (least : ℕ) (ps : List Text) → All (IsGroup least) ps → All (All IsDigit) ps
groups-digits least [] h = tt
groups-digits least (p ∷ ps) h = (h.0.2, groups-digits least ps h.1)

All-snoc :
    (ps : List Text) (t : Text)
    → All (IsGroup 2) ps
    → IsGroup 2 t
    → All (IsGroup 2) (ps ++ (t ∷ []))
All-snoc [] t h g = (g, tt)
All-snoc (p ∷ ps) t h g = (h.0, All-snoc ps t h.1 g)

or-true : (q : Bool) → (q || true) ≡ true
or-true true = refl
or-true false = refl

not_short : (n : ℕ) → ltb 3 n ≡ true → 3 < n
not_short n e = ground arith

some_text : (n : ℕ) → 0 < n → ltb 0 n ≡ true
some_text n h = ground arith

-- The pieces between the commas of a grouped number.
pieces :
    (s : Text)
    → All IsDigit s
    → 3 < length s
    → (p : Text) × (ps : List Text) × (split_commas (
          join (44 ∷ []) (head_groups (length (take (length s - 3) s)) (take (length s - 3) s) [])
          ++ (44 ∷ drop (length s - 3) s))
        ≡ p ∷ ps)
      × IsGroup 1 p
      × All (IsGroup 2) ps
pieces s digits long =
    let n = length s - 3 in
    let front : length (take n s) ≡ n = length-take-le n s (omega arith) in
    let back : length (drop n s) ≡ 3 = omega (arith, length-drop n s) in
    let tail_digits = All-drop n s digits in
    let (p, ps, made, first, others) =
      groups_made (length (take n s)) (take n s) [] (omega arith) (omega arith)
        (All-take n s digits) tt in
    (
      p,
      ps ++ (drop n s ∷ []),
      rw made (
          split_commas-join p ps (drop n s) (first.2, groups-digits 2 ps others)
          ∙ ap (λ qs. (p ∷ ps) ++ qs) (split_commas-digits (drop n s) tail_digits)),
      first,
      All-snoc ps (drop n s) others (omega arith, omega arith, tail_digits),
    )

-- The whole part of an amount, with its commas, is what `AMOUNT` wants.
pub grouped-whole_ok : (s : Text) → All IsDigit s → 0 < length s → whole_ok (grouped s) ≡ true
unfolding whole_ok grouped
grouped-whole_ok s digits long = elim (Bool-cases (ltb 3 (length s))) [
  | inl e ↦
      let (p, ps, split, first, others) = pieces s digits (not_short (length s) e) in
      rw (e, split, is_group-IsGroup 1 p first, every-IsGroup ps others) refl
  | inr e ↦ rw (e, every-digits s digits, some_text (length s) long) (or-true _)
]
