-- ===== src/Appropriation.antt =====
-- `Book.appropriation` of docs/accounting/reference-books/build.py: interest on
-- the partners' capital, then the shares of what is left, the odd paise to the largest ratio.
pub mod Exact
pub mod Fair
use rukka_folio.Prelude.{
  ℕ, zero, suc, ◌+◌, ◌-◌, ◌*◌, ◌/◌, List, [], ◌∷◌, ltb, ◌==◌, if◌then◌else◌, ℤ, pos, pos_part, neg,
  ◌+ℤ◌, ◌-ℤ◌, is_pos, Option, none, some, map,
}
use rukka_folio.Money.{half_up}
use rukka_folio.Fault.{Result, ok, err, ◌>>=◌, ◌>>◌, guard, or_key_error, no_profit, zero_division}
use rukka_folio.Book.{Account, Partner, Book, find_account}

abbrev pub sum_ℕ : List ℕ → ℕ
sum_ℕ [] = 0
sum_ℕ (x ∷ xs) = x + sum_ℕ xs

-- `half_up(cap * ioc_bp, 10000) if cap > 0 else 0`
unfoldable pub interest_on : ℤ → ℕ → ℕ
unfolding half_up
interest_on cap ioc_bp = if is_pos cap then half_up (pos_part cap * ioc_bp) 10000 else 0

-- `-self.accounts[p["capital"]].closing if p.get("capital") else 0`
unfoldable pub capital_of : List Account → Partner → Result ℤ
unfolding find_account
capital_of accounts p = elim p.capital [
  | none ↦ ok (pos 0)
  | some n ↦ do ok (neg (← or_key_error (find_account n accounts)).closing)
]

-- The first loop: the interest of each partner, on the closing credit of the capital account.
unfoldable pub interests : List Account → List Partner → Result (List ℕ)
unfolding capital_of interest_on
interests accounts [] = ok []
interests accounts (p ∷ ps) =
    let rest = interests accounts ps in
    do cap ← capital_of accounts p; is ← rest; ok (interest_on cap p.ioc_bp ∷ is)

-- `rest * p["share"] // weights`
abbrev pub floors : ℕ → ℕ → List ℕ → List ℕ
floors rest weights = map (λ w. rest * w / weights)

-- `max(range(n), key=lambda k: (share[k], -k))`: the first of the largest.
unfoldable pub largest_from : ℕ → ℕ → ℕ → List ℕ → ℕ
largest_from best w k [] = best
largest_from best w k (x ∷ xs) =
    largest_from (if ltb w x then k else best) (if ltb w x then x else w) (k + 1) xs

unfoldable pub largest : List ℕ → ℕ
unfolding largest_from
largest [] = 0
largest (x ∷ xs) = largest_from 0 x 1 xs

-- `shares[k] += left`
unfoldable pub add_at : ℕ → ℕ → List ℕ → List ℕ
add_at k left [] = []
add_at zero left (x ∷ xs) = (x + left) ∷ xs
add_at (suc k) left (x ∷ xs) = x ∷ add_at k left xs

unfoldable pub shares_of : ℕ → List ℕ → List ℕ
unfolding largest add_at
shares_of rest ws = let fs = floors rest (sum_ℕ ws) ws in add_at (largest ws) (rest - sum_ℕ fs) fs

-- A row of the result: the partner, the interest and the share.
pub record Part : Type 0 where
  pub partner : Partner
  pub interest : ℕ
  pub share : ℕ

unfoldable pub zip_parts : List Partner → List ℕ → List ℕ → List Part
zip_parts (p ∷ ps) (i ∷ is) (s ∷ ss) =
    record { partner = p; interest = i; share = s } ∷ zip_parts ps is ss
zip_parts _ _ _ = []

abbrev pub weights_of : List Partner → List ℕ
weights_of = map (λ p. p.share)

-- The method's body, for a book that has partners.
unfoldable pub appropriate : List Account → List Partner → ℤ → Result (List Part)
unfolding interests shares_of zip_parts
appropriate accounts partners result = do
  is ← interests accounts partners
  let rest = result -ℤ pos (sum_ℕ is)
  guard (is_pos rest) no_profit
  let ws = weights_of partners
  guard (ltb 0 (sum_ℕ ws)) zero_division
  ok (zip_parts partners is (shares_of (pos_part rest) ws))

unfoldable pub appropriation : Book → ℤ → Result (List Part)
unfolding appropriate
appropriation b result = elim b.partners [
  | [] ↦ ok []
  | p ∷ ps ↦ appropriate b.accounts b.partners result
]
