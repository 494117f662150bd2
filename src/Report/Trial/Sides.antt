-- ===== src/Report/Trial/Sides.antt =====
-- When the trial balance agrees.
use rukka_folio.Prelude.{
  eq→eqb, nil→eq, ◌≡◌, ◌∙◌, Bool-cases, inl, inr, pos, ◌+ℤ◌, ◌-ℤ◌, int_laws, is_nil, sum_by, List,
  [], ◌∷◌,
}
use rukka_folio.Fault.{ok}
use rukka_folio.Book.{Account, Book}
use rukka_folio.Entry.{validate_vouchers}
use rukka_folio.Posting.{post, opening_total}
use rukka_folio.Queries.Totals.{closings-opening_total}
use rukka_folio.Report.Trial.{
  TrialSums, is_used, trial_step, trial_rows, no_trial, trial_page, sec_trial,
}

trial_step-sides :
    (a : Account) (s : TrialSums)
    → (trial_step a s).tdr -ℤ (trial_step a s).tcr ≡ s.tdr -ℤ s.tcr +ℤ a.closing
unfolding trial_step
trial_step-sides a s = elim (Bool-cases (is_nil a.closing)) [
  | inl z ↦ elim (Bool-cases (is_used a)) [
    | inl u ↦ rw (z, u) (omega (int_laws, nil→eq a.closing z))
    | inr u ↦ rw (z, u) (omega (int_laws, nil→eq a.closing z))
  ]
  | inr z ↦ rw z (omega int_laws)
]

trial_rows-sides :
    (accounts : List Account) (s : TrialSums)
    → (trial_rows accounts s).tdr -ℤ (trial_rows accounts s).tcr
      ≡ s.tdr -ℤ s.tcr +ℤ sum_by (λ a. a.closing) accounts
unfolding trial_rows
trial_rows-sides [] s = omega int_laws
trial_rows-sides (a ∷ rest) s = rw (trial_rows-sides rest) (omega (int_laws, trial_step-sides a s))

-- When `post` returned a book whose entries passed `validate_vouchers` and whose openings add up to nil,
-- the trial balance of `sec_closing` is printed: its two totals agree.
pub sec_trial_returns :
    (b b' : Book)
    → validate_vouchers b.accounts b.vouchers ≡ ok tt
    → opening_total b.accounts ≡ pos 0
    → post b ≡ ok b'
    → sec_trial b' ≡ ok (trial_page b' (trial_rows b'.accounts no_trial))
unfolding sec_trial
sec_trial_returns b b' valid openings posted =
    let s = trial_rows b'.accounts no_trial in
    let nil = closings-opening_total b b' valid posted ∙ openings in
    let agree : s.tdr ≡ s.tcr = omega (int_laws, trial_rows-sides b'.accounts no_trial, nil) in
    rw (eq→eqb _ _ agree)
