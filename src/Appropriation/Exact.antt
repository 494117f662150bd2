-- ===== src/Appropriation/Exact.antt =====
-- The parts of an appropriation add up to the result: no paisa is lost or made.
use rukka_folio.Prelude.{
  ℕ, zero, suc, ◌+◌, ◌-◌, ◌*◌, ◌/◌, ◌≤◌, ◌<◌, ◌≡◌, refl, sym, is_pos, ltb→lt, ℤ, pos, pos_part,
  ◌-ℤ◌, ◌≤ℤ◌, List, [], ◌∷◌, length, ltb, arith, Bool-cases, inl, inr, true,
}
use rukka_folio.Fault.{ok, ◌>>=◌, >>=-eq-ok, guard->>-eq-ok}
use rukka_folio.Book.{Account, Partner}
use rukka_folio.Book.Changed.{ok-injective}
use rukka_folio.Appropriation.{
  sum_ℕ, floors, largest_from, largest, add_at, shares_of, Part, zip_parts, interests, interest_on,
  weights_of, appropriate, capital_of,
}

-- The first of the largest is a place of the list.
largest_from-lt : (best w k : ℕ) (xs : List ℕ) → best < k → largest_from best w k xs < k + length xs
unfolding largest_from
largest_from-lt best w k [] h = omega arith
largest_from-lt best w k (x ∷ xs) h = elim (Bool-cases (ltb w x)) [
  | inl e ↦ rw e (omega (arith, largest_from-lt k x (k + 1) xs (omega arith)))
  | inr e ↦ rw e (omega (arith, largest_from-lt best w (k + 1) xs (omega arith)))
]

pub largest-lt : (x : ℕ) (xs : List ℕ) → largest (x ∷ xs) < length (x ∷ xs)
unfolding largest
largest-lt x xs = omega (arith, largest_from-lt 0 x 1 xs (omega arith))

sum-add_at : (k left : ℕ) (xs : List ℕ) → k < length xs → sum_ℕ (add_at k left xs) ≡ sum_ℕ xs + left
unfolding add_at
sum-add_at k left [] h = absurd (omega arith)
sum-add_at zero left (x ∷ xs) h = omega arith
sum-add_at (suc k) left (x ∷ xs) h = omega (arith, sum-add_at k left xs (omega arith))

length-floors : (rest weights : ℕ) (ws : List ℕ) → length (floors rest weights ws) ≡ length ws
length-floors rest weights [] = refl
length-floors rest weights (w ∷ ws) = omega (arith, length-floors rest weights ws)

floor-mul : (rest weights w : ℕ) → weights * (rest * w / weights) ≤ rest * w
floor-mul rest weights w = grind arith

floors-mul :
    (rest weights : ℕ) (ws : List ℕ) → weights * sum_ℕ (floors rest weights ws) ≤ rest * sum_ℕ ws
floors-mul rest weights [] = omega arith
floors-mul rest weights (w ∷ ws) =
    omega (arith, floors-mul rest weights ws, floor-mul rest weights w)

cancel_le : (w a b : ℕ) → 0 < w → w * a ≤ b * w → a ≤ b
cancel_le w a b h k = grind arith

-- The floors never add up to more than what is shared.
pub floors-le : (rest : ℕ) (ws : List ℕ) → 0 < sum_ℕ ws → sum_ℕ (floors rest (sum_ℕ ws) ws) ≤ rest
floors-le rest ws h = cancel_le (sum_ℕ ws) _ rest h (floors-mul rest (sum_ℕ ws) ws)

pub sum-shares_of : (rest : ℕ) (ws : List ℕ) → 0 < sum_ℕ ws → sum_ℕ (shares_of rest ws) ≡ rest
unfolding shares_of
sum-shares_of rest [] h = absurd (omega arith)
sum-shares_of rest (w ∷ ws) h =
    let fs = floors rest (sum_ℕ (w ∷ ws)) (w ∷ ws) in
    omega (
      arith,
      sum-add_at (largest (w ∷ ws)) (rest - sum_ℕ fs) fs
          (omega (arith, largest-lt w ws, length-floors rest (sum_ℕ (w ∷ ws)) (w ∷ ws))),
      floors-le rest (w ∷ ws) h,
    )

abbrev pub interest_total : List Part → ℕ
interest_total [] = 0
interest_total (r ∷ rs) = r.interest + interest_total rs

abbrev pub share_total : List Part → ℕ
share_total [] = 0
share_total (r ∷ rs) = r.share + share_total rs

zip_parts-totals :
    (ps : List Partner) (is ss : List ℕ)
    → length is ≡ length ps
    → length ss ≡ length ps
    → (interest_total (zip_parts ps is ss) ≡ sum_ℕ is)
      × (share_total (zip_parts ps is ss) ≡ sum_ℕ ss)
unfolding zip_parts
zip_parts-totals [] [] [] h k = (refl, refl)
zip_parts-totals [] (i ∷ is) ss h k = absurd (omega arith)
zip_parts-totals [] [] (s ∷ ss) h k = absurd (omega arith)
zip_parts-totals (p ∷ ps) [] ss h k = absurd (omega arith)
zip_parts-totals (p ∷ ps) (i ∷ is) [] h k = absurd (omega arith)
zip_parts-totals (p ∷ ps) (i ∷ is) (s ∷ ss) h k =
    let (x, y) = zip_parts-totals ps is ss (omega arith) (omega arith) in
    (omega (arith, x), omega (arith, y))

length-interests :
    (accounts : List Account) (ps : List Partner) (is : List ℕ)
    → interests accounts ps ≡ ok is
    → length is ≡ length ps
unfolding interests
length-interests accounts [] is h = rw (← ok-injective h) refl
length-interests accounts (p ∷ ps) is h =
    let (cap, x, h1) =
      >>=-eq-ok (capital_of accounts p)
        (λ c. interests accounts ps >>= λ r. ok (interest_on c p.ioc_bp ∷ r)) h in
    let (rest, y, h2) =
      >>=-eq-ok (interests accounts ps) (λ r. ok (interest_on cap p.ioc_bp ∷ r)) h1 in
    rw (← ok-injective h2) (omega (arith, length-interests accounts ps rest y))

length-add_at : (k left : ℕ) (xs : List ℕ) → length (add_at k left xs) ≡ length xs
unfolding add_at
length-add_at k left [] = refl
length-add_at zero left (x ∷ xs) = refl
length-add_at (suc k) left (x ∷ xs) = omega (arith, length-add_at k left xs)

pub length-shares_of : (rest : ℕ) (ws : List ℕ) → length (shares_of rest ws) ≡ length ws
unfolding shares_of
length-shares_of rest ws =
    let fs = floors rest (sum_ℕ ws) ws in
    omega (arith, length-add_at (largest ws) (rest - sum_ℕ fs) fs, length-floors rest (sum_ℕ ws) ws)

length-weights_of : (ps : List Partner) → length (weights_of ps) ≡ length ps
length-weights_of [] = refl
length-weights_of (p ∷ ps) = omega (arith, length-weights_of ps)

is_pos→le : (a : ℤ) → is_pos a ≡ true → pos 1 ≤ℤ a
is_pos→le a h = ground arith

-- What `appropriate` returns: the interests, and the shares of what they leave of a profit.
pub appropriate-parts :
    (accounts : List Account) (ps : List Partner) (result : ℤ) (parts : List Part)
    → appropriate accounts ps result ≡ ok parts
    → (is : List ℕ) × (interests accounts ps ≡ ok is)
      × (pos 1 ≤ℤ result -ℤ pos (sum_ℕ is))
      × (0 < sum_ℕ (weights_of ps))
      × (parts ≡ zip_parts ps is (shares_of (pos_part (result -ℤ pos (sum_ℕ is))) (weights_of ps)))
unfolding appropriate
appropriate-parts accounts ps result parts h =
    let (is, x, h1) = >>=-eq-ok (interests accounts ps) _ h in
    let (y, h2) = guard->>-eq-ok _ _ _ h1 in
    let (z, h3) = guard->>-eq-ok _ _ _ h2 in
    (is, x, is_pos→le _ y, ltb→lt 0 _ z, sym (ok-injective h3))

take_rest : (k : ℕ) (r : ℤ) → pos 1 ≤ℤ r -ℤ pos k → pos (k + pos_part (r -ℤ pos k)) ≡ r
unfolding ◌-ℤ◌
take_rest k r h = ground arith

-- When the appropriation of a result succeeds, the partners' interest and shares together are the
-- whole result, to the paisa.
pub appropriate_total :
    (accounts : List Account) (ps : List Partner) (result : ℤ) (parts : List Part)
    → appropriate accounts ps result ≡ ok parts
    → pos (interest_total parts + share_total parts) ≡ result
appropriate_total accounts ps result parts h =
    let (is, x, y, z, e) = appropriate-parts accounts ps result parts h in
    let rest = result -ℤ pos (sum_ℕ is) in
    let ws = weights_of ps in
    let (t, u) =
      zip_parts-totals ps is (shares_of (pos_part rest) ws) (length-interests accounts ps is x)
        (omega (arith, length-shares_of (pos_part rest) ws, length-weights_of ps)) in
    rw (e, t, u, sum-shares_of (pos_part rest) ws z) (take_rest (sum_ℕ is) result y)
