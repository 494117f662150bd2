-- ===== src/Report/BalanceSheet/Sums.antt =====
-- The sums of the balance sheet, over the accounts.
use rukka_folio.Prelude.{
  when, All, nil→eq, ◌≡◌, refl, Bool, not, ◌&&◌, Bool-cases, inl, inr, List, [], ◌∷◌, ℤ, ◌+ℤ◌, ◌-ℤ◌,
  int_laws, is_nil, abs, sum_by, arith,
}
use rukka_folio.Kinds.{Kind, income, expense, is_kind, is_bs_kind, is_equity_kind}
use rukka_folio.Book.{Account}
use rukka_folio.Report.Position.{Place, place, have, get, give, funds}
use rukka_folio.Report.BalanceSheet.Sheet.{SheetSums, sheet_rows, sheet_step, put_at}

-- What the sheet counts of an account, as a balance: a fund and what is given keep their sign.
abbrev signed : Place → ℤ → ℤ
signed have x = abs x
signed get x = abs x
signed give x = x
signed funds x = x

put_at-signed :
    (p : Place) (a : Account) (s : SheetSums)
    → (put_at p a s).ta -ℤ (put_at p a s).tl ≡ s.ta -ℤ s.tl +ℤ signed p a.closing
unfolding put_at
put_at-signed have a s = omega int_laws
put_at-signed get a s = omega int_laws
put_at-signed give a s = omega int_laws
put_at-signed funds a s = omega int_laws

signed-place : (k : Kind) (x : ℤ) → signed (place k x) x ≡ x
unfolding place
signed-place k x = ground arith

abbrev pub is_placed : Kind → Bool
is_placed k = is_bs_kind k && not (is_equity_kind k)

sheet_step-sides :
    (a : Account) (s : SheetSums)
    → (sheet_step a s).ta -ℤ (sheet_step a s).tl ≡ s.ta -ℤ s.tl +ℤ when (is_placed a.kind) a.closing
unfolding sheet_step
sheet_step-sides a s = elim (Bool-cases (is_bs_kind a.kind)) [
  | inl b ↦ elim (Bool-cases (is_equity_kind a.kind)) [
    | inl e ↦ rw (b, e) (omega int_laws)
    | inr e ↦ elim (Bool-cases (is_nil a.closing)) [
      | inl z ↦ rw (b, e, z) (omega (int_laws, nil→eq a.closing z))
      | inr z ↦
          rw (b, e, z)
            (omega
              (int_laws, put_at-signed (place a.kind a.closing) a s, signed-place a.kind a.closing))
    ]
  ]
  | inr b ↦ rw b (omega int_laws)
]

pub sheet_rows-sides :
    (accounts : List Account) (s : SheetSums)
    → (sheet_rows accounts s).ta -ℤ (sheet_rows accounts s).tl
      ≡ s.ta -ℤ s.tl +ℤ sum_by (λ a. when (is_placed a.kind) a.closing) accounts
unfolding sheet_rows
sheet_rows-sides [] s = omega int_laws
sheet_rows-sides (a ∷ rest) s = rw (sheet_rows-sides rest) (omega (int_laws, sheet_step-sides a s))

-- Every account is placed, own money, or a head.
kind_parts :
    (k : Kind) (x : ℤ)
    → when (is_placed k) x
        +ℤ (when (is_equity_kind k) x +ℤ when (is_kind k income) x +ℤ when (is_kind k expense) x)
      ≡ x
unfolding is_bs_kind is_equity_kind ◌+ℤ◌
kind_parts k x = ground arith

abbrev pub closing_when : (Account → Bool) → List Account → ℤ
closing_when p = sum_by (λ a. when (p a) a.closing)

pub closing_parts :
    (accounts : List Account)
    → closing_when (λ a. is_placed a.kind) accounts
        +ℤ (closing_when (λ a. is_equity_kind a.kind) accounts
            +ℤ closing_when (λ a. is_kind a.kind income) accounts
            +ℤ closing_when (λ a. is_kind a.kind expense) accounts)
      ≡ sum_by (λ a. a.closing) accounts
closing_parts [] = omega int_laws
closing_parts (a ∷ rest) = omega (int_laws, closing_parts rest, kind_parts a.kind a.closing)

-- The same sums, where the balances are known by account.
pub when-All :
    (f g : Account → ℤ) (p : Account → Bool) (accounts : List Account)
    → All (λ a. f a ≡ g a) accounts
    → sum_by (λ a. when (p a) (f a)) accounts ≡ sum_by (λ a. when (p a) (g a)) accounts
when-All f g p [] h = refl
when-All f g p (a ∷ rest) h = rw (h.0, when-All f g p rest h.1)
