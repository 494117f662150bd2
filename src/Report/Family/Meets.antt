-- ===== src/Report/Family/Meets.antt =====
-- Every entry of a pair meets one of the other book.
use rukka_folio.Prelude.{
  eqb→eq, ◌≡◌, ◌∙◌, refl, sym, ap, Bool-cases, inl, inr, ℕ, ◌+◌, ◌<◌, true, ◌&&◌, and-left,
  and-right, ◌==◌, List, [], ◌∷◌, if◌then◌else◌, ℤ, neg, eqb_ℤ, Text, arith,
}
use rukka_folio.Dates.{Date}
use rukka_folio.Fault.{ok}
use rukka_folio.Book.{Account}
use rukka_folio.Report.Family.{PairRow, row_before, insert_row, sort_rows, rows_on, pair_rows}
use rukka_folio.Report.Family.Pair.{Left, met, meet, PairSums, meet_all}
use rukka_folio.Report.Family.Summary.{DayAmounts, day_before, insert_day, day_amounts, same_days}

-- Is the amount y on day e the amount x on day d?
abbrev hit : Date → ℤ → Date → ℤ → ℕ
hit d x e y = if (e == d) && eqb_ℤ y x then 1 else 0

-- How many entries there are of the amount x on day d.
abbrev hits : (ℤ → ℤ) → Date → ℤ → List PairRow → ℕ
hits f d x [] = 0
hits f d x (p ∷ ps) = hit d x p.date (f p.x) + hits f d x ps

abbrev day_hits : Date → ℤ → DayAmounts → ℕ
day_hits d x [] = 0
day_hits d x (p ∷ ps) = hit d x p.0 p.1 + day_hits d x ps

day_hits-insert_day :
    (d : Date) (x : ℤ) (p : Date × ℤ) (ps : DayAmounts)
    → day_hits d x (insert_day p ps) ≡ hit d x p.0 p.1 + day_hits d x ps
unfolding insert_day
day_hits-insert_day d x p [] = refl
day_hits-insert_day d x p (q ∷ qs) = elim (Bool-cases (day_before q p)) [
  | inl e ↦ rw e (omega (arith, day_hits-insert_day d x p qs))
  | inr e ↦ rw e refl
]

day_hits-day_amounts :
    (d : Date) (x : ℤ) (f : ℤ → ℤ) (ps : List PairRow)
    → day_hits d x (day_amounts f ps) ≡ hits f d x ps
unfolding day_amounts
day_hits-day_amounts d x f [] = refl
day_hits-day_amounts d x f (p ∷ ps) =
    day_hits-insert_day d x (p.date, f p.x) (day_amounts f ps)
    ∙ ap (λ n. hit d x p.date (f p.x) + n) (day_hits-day_amounts d x f ps)

hits-insert_row :
    (f : ℤ → ℤ) (d : Date) (x : ℤ) (p : PairRow) (ps : List PairRow)
    → hits f d x (insert_row p ps) ≡ hit d x p.date (f p.x) + hits f d x ps
unfolding insert_row
hits-insert_row f d x p [] = refl
hits-insert_row f d x p (q ∷ qs) = elim (Bool-cases (row_before q p)) [
  | inl e ↦ rw e (omega (arith, hits-insert_row f d x p qs))
  | inr e ↦ rw e refl
]

hits-sort_rows :
    (f : ℤ → ℤ) (d : Date) (x : ℤ) (ps : List PairRow) → hits f d x (sort_rows ps) ≡ hits f d x ps
unfolding sort_rows
hits-sort_rows f d x [] = refl
hits-sort_rows f d x (p ∷ ps) =
    hits-insert_row f d x p (sort_rows ps)
    ∙ ap (λ n. hit d x p.date (f p.x) + n) (hits-sort_rows f d x ps)

==→eq : (m n : ℕ) → (m == n) ≡ true → m ≡ n
==→eq m n h = ground arith

same_days→hits :
    (d : Date) (x : ℤ) (ps qs : DayAmounts)
    → same_days ps qs ≡ true
    → day_hits d x ps ≡ day_hits d x qs
unfolding same_days
same_days→hits d x [] [] h = refl
same_days→hits d x [] (q ∷ qs) h = cc
same_days→hits d x (p ∷ ps) [] h = cc
same_days→hits d x (p ∷ ps) (q ∷ qs) h =
    let day = ==→eq p.0 q.0 (and-left (p.0 == q.0) _ h) in
    let rest = and-right (p.0 == q.0) _ h in
    let amount = eqb→eq p.1 q.1 (and-left (eqb_ℤ p.1 q.1) _ rest) in
    let more = same_days→hits d x ps qs (and-right (eqb_ℤ p.1 q.1) _ rest) in
    rw (day, amount, more) refl

one_of_rest : (n : ℕ) → 0 < 0 + n → 0 < n
one_of_rest n h = omega arith

-- `meet` finds an entry that is there, and takes it away.
meet_returns :
    (d : Date) (x : ℤ) (left : Left)
    → 0 < hits neg d x left
    → (vid : Text) × (after : Left) × (meet d x left ≡ ok (vid, after))
      × ((e : Date) (y : ℤ) → hits neg e y left ≡ hit e y d x + hits neg e y after)
unfolding meet
meet_returns d x [] h = absurd (omega arith)
meet_returns d x (p ∷ rest) h = elim (Bool-cases ((p.date == d) && eqb_ℤ (neg p.x) x)) [
  | inl m ↦
      let day = ==→eq p.date d (and-left (p.date == d) _ m) in
      let amount = eqb→eq (neg p.x) x (and-right (p.date == d) _ m) in
      (p.vid, rest, rw m refl, λ e y. rw (day, amount) refl)
  | inr m ↦
      let (vid, after, found, counts) =
        meet_returns d x rest (one_of_rest (hits neg d x rest) (rw m at h)) in
      (vid, p ∷ after, rw (m, found) refl, λ e y. omega (arith, counts e y))
]

hit_self : (d : Date) (x : ℤ) → hit d x d x ≡ 1
hit_self d x = ground arith

none_left : (left : Left) → ((d : Date) (x : ℤ) → hits neg d x left ≡ 0) → left ≡ []
none_left [] h = refl
none_left (p ∷ rest) h =
    let zero_here = h p.date (neg p.x) in
    absurd (omega (arith, zero_here, hit_self p.date (neg p.x)))

meet_all_returns :
    (ps : List PairRow) (s : PairSums)
    → ((d : Date) (x : ℤ) → hits (λ y. y) d x ps ≡ hits neg d x s.left)
    → (after : PairSums) × (meet_all ps s ≡ ok after) × (after.left ≡ [])
unfolding meet_all met
meet_all_returns [] s h = (s, refl, none_left s.left (λ d x. sym (h d x)))
meet_all_returns (p ∷ ps) s h =
    let there : 0 < hits neg p.date p.x s.left = omega (arith, h p.date p.x, hit_self p.date p.x) in
    let (vid, left, found, counts) = meet_returns p.date p.x s.left there in
    let (after, returned, ended) =
      meet_all_returns ps (met p vid left s) (λ d x. omega (arith, h d x, counts d x)) in
    (after, rw found returned, ended)

-- When a pair's entries have passed the assertion of `sec_family_summary` that the two books have the same
-- days and amounts, `pair_section` finds for each entry of the first book one of the other, and its
-- assertion that none is left over holds, whatever it starts from.
pub meet_all-same_days :
    (mine theirs : List Account) (s : PairSums)
    → same_days (day_amounts (λ y. y) (rows_on mine)) (day_amounts neg (rows_on theirs)) ≡ true
    → s.left ≡ pair_rows theirs
    → (after : PairSums) × (meet_all (pair_rows mine) s ≡ ok after) × (after.left ≡ [])
unfolding pair_rows
meet_all-same_days mine theirs s h start = meet_all_returns (sort_rows (rows_on mine)) s (λ d x.
    let passed = same_days→hits d x _ _ h in
    rw (start, hits-sort_rows (λ y. y) d x (rows_on mine), hits-sort_rows neg d x (rows_on theirs))
      (sym (day_hits-day_amounts d x (λ y. y) (rows_on mine))
        ∙ (passed ∙ day_hits-day_amounts d x neg (rows_on theirs))))
