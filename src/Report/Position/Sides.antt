-- ===== src/Report/Position/Sides.antt =====
-- What an account adds to the position, and to the own money, by its kind.
use rukka_folio.Prelude.{
  when, ◌≡◌, refl, Bool, Bool-cases, inl, inr, List, [], ◌∷◌, if◌then◌else◌, ℤ, pos, ◌+ℤ◌, ◌-ℤ◌,
  int_laws, abs, dr_of, sum_by, keep, arith,
}
use rukka_folio.Kinds.{
  Kind, cash, gollak, bank, wallet, card, cc, party, link, stake, advance, loanto, retention, fixed,
  deppaid, invest, loan, deposit, fund, capital, drawings, shareout, partner, pcapital, pcurrent,
  income, expense, is_kind, is_bs_kind, is_equity_kind,
}
use rukka_folio.Report.Position.{have, get, give, funds, place, stands_at}

pub sum-keep {ℓ} :
    {A : Type ℓ} (p : A → Bool) (f : A → ℤ) (xs : List A)
    → sum_by f (keep p xs) ≡ sum_by (λ x. if p x then f x else pos 0) xs
sum-keep p f [] = refl
sum-keep p f (x ∷ xs) = elim (Bool-cases (p x)) [
  | inl e ↦ rw (e, sum-keep p f xs)
  | inr e ↦ rw (e, sum-keep p f xs) (omega int_laws)
]

-- What an account of kind k with this balance adds to have + get - give - funds.
abbrev pub in_net : Kind → ℤ → ℤ
in_net k x =
    when (stands_at have k x) (abs x)
    +ℤ when (stands_at get k x) (abs x)
    -ℤ when (stands_at give k x) (abs x)
    -ℤ when (stands_at funds k x) (abs x)

-- The debit balance of a fund, which the position counts on the wrong side.
abbrev pub overdrawn : Kind → ℤ → ℤ
overdrawn k x = when (is_kind k fund) (dr_of x)

-- An account is placed, or it is own money, or a head.
abbrev Splits : Kind → ℤ → Type 0
Splits k x =
    in_net k x
      +ℤ overdrawn k x
      +ℤ overdrawn k x
      +ℤ (when (is_equity_kind k) x +ℤ when (is_kind k income) x +ℤ when (is_kind k expense) x)
    ≡ x

cash-Splits : (x : ℤ) → Splits cash x
unfolding stands_at place is_bs_kind is_equity_kind ◌+ℤ◌ ◌-ℤ◌
cash-Splits x = ground arith

party-Splits : (x : ℤ) → Splits party x
unfolding stands_at place is_bs_kind is_equity_kind ◌+ℤ◌ ◌-ℤ◌
party-Splits x = ground arith

loan-Splits : (x : ℤ) → Splits loan x
unfolding stands_at place is_bs_kind is_equity_kind ◌+ℤ◌ ◌-ℤ◌
loan-Splits x = ground arith

fund-Splits : (x : ℤ) → Splits fund x
unfolding stands_at place is_bs_kind is_equity_kind ◌+ℤ◌ ◌-ℤ◌
fund-Splits x = ground arith

capital-Splits : (x : ℤ) → Splits capital x
unfolding stands_at place is_bs_kind is_equity_kind ◌+ℤ◌ ◌-ℤ◌
capital-Splits x = ground arith

income-Splits : (x : ℤ) → Splits income x
unfolding stands_at place is_bs_kind is_equity_kind ◌+ℤ◌ ◌-ℤ◌
income-Splits x = ground arith

expense-Splits : (x : ℤ) → Splits expense x
unfolding stands_at place is_bs_kind is_equity_kind ◌+ℤ◌ ◌-ℤ◌
expense-Splits x = ground arith

pub kind_splits :
    (k : Kind) (x : ℤ)
    → in_net k x
        +ℤ overdrawn k x
        +ℤ overdrawn k x
        +ℤ (when (is_equity_kind k) x +ℤ when (is_kind k income) x +ℤ when (is_kind k expense) x)
      ≡ x
unfolding stands_at place is_bs_kind is_equity_kind
kind_splits cash x = cash-Splits x
kind_splits gollak x = cash-Splits x
kind_splits bank x = cash-Splits x
kind_splits wallet x = cash-Splits x
kind_splits card x = cash-Splits x
kind_splits cc x = cash-Splits x
kind_splits party x = party-Splits x
kind_splits link x = party-Splits x
kind_splits stake x = cash-Splits x
kind_splits advance x = cash-Splits x
kind_splits loanto x = cash-Splits x
kind_splits retention x = cash-Splits x
kind_splits fixed x = cash-Splits x
kind_splits deppaid x = cash-Splits x
kind_splits invest x = cash-Splits x
kind_splits loan x = loan-Splits x
kind_splits deposit x = loan-Splits x
kind_splits fund x = fund-Splits x
kind_splits capital x = capital-Splits x
kind_splits drawings x = capital-Splits x
kind_splits shareout x = capital-Splits x
kind_splits partner x = capital-Splits x
kind_splits pcapital x = capital-Splits x
kind_splits pcurrent x = capital-Splits x
kind_splits income x = income-Splits x
kind_splits expense x = expense-Splits x
