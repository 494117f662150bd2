-- ===== src/Book/Changed.antt =====
-- What `change` does, as a relation: the first account of the name is changed, and no other.
use rukka_folio.Prelude.{
  All, ◌≡◌, true, false, List, [], ◌∷◌, ℤ, ◌+ℤ◌, int_laws, sum_by, Text, inl, inr, Bool-cases, same,
}
use rukka_folio.Fault.{ok, >>=-eq-ok}
use rukka_folio.Book.{Account, change}

pub ok-injective {ℓ} : {A : Type ℓ} {a b : A} → ok a ≡ ok b → a ≡ b
ok-injective e = cc

module _ (n : Text) (f : Account → Account) where
  pub data Changed : List Account → List Account → Type 0 where
    here :
        (a : Account) (rest : List Account) → same a.name n ≡ true → Changed (a ∷ rest) (f a ∷ rest)
    there :
        (a : Account) {rest after : List Account}
        → same a.name n ≡ false
        → Changed rest after
        → Changed (a ∷ rest) (a ∷ after)

  here_at :
      (a : Account) (rest after : List Account)
      → same a.name n ≡ true
      → f a ∷ rest ≡ after
      → Changed (a ∷ rest) after
  here_at a rest after e p = rw (← p) (here a rest e)

  there_at :
      (a : Account) (rest mid after : List Account)
      → same a.name n ≡ false
      → Changed rest mid
      → a ∷ mid ≡ after
      → Changed (a ∷ rest) after
  there_at a rest mid after e c p = rw (← p) (there a e c)

  pub change-Changed :
      (before after : List Account) → change n f before ≡ ok after → Changed before after
  unfolding change
  change-Changed [] after h = cc
  change-Changed (a ∷ rest) after h = elim (Bool-cases (same a.name n)) [
    | inl e ↦ here_at a rest after e (ok-injective (rw e at h))
    | inr e ↦
        let (mid, p, q) = >>=-eq-ok (change n f rest) (λ r. ok (a ∷ r)) (rw e at h) in
        there_at a rest mid after e (change-Changed rest mid p) (ok-injective q)
  ]

  pub sum-Changed :
      (μ : Account → ℤ) (d : ℤ) {before after : List Account}
      → ((a : Account) → μ (f a) ≡ μ a +ℤ d)
      → Changed before after
      → sum_by μ after ≡ sum_by μ before +ℤ d
  sum-Changed μ d step (here a rest e) = rw (step a) (omega int_laws)
  sum-Changed μ d step (there a e c) = rw (sum-Changed μ d step c) (omega int_laws)

  pub All-Changed {κ} :
      (P : Account → Type κ)
      → ((a : Account) → P a → P (f a))
      → {before after : List Account} → Changed before after
      → All P before
      → All P after
  All-Changed P step (here a rest e) h = (step a h.0, h.1)
  All-Changed P step (there a e c) h = (h.0, All-Changed P step c h.1)
