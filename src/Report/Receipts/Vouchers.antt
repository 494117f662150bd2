-- ===== src/Report/Receipts/Vouchers.antt =====
-- What one entry adds to the receipts and the payments.
use rukka_folio.Prelude.{
  when, ◌≡◌, refl, sym, ap, ◌∙◌, Bool, false, ◌&&◌, Bool-cases, inl, inr, ◌⊎◌, List, [], ◌∷◌, ℤ,
  neg, ◌+ℤ◌, ◌-ℤ◌, int_laws, is_pos, is_neg, sum_by, Text, same, same→eq, Option, none, some,
}
use rukka_folio.Kinds.{Kind, expense, fixed, in_kinds, is_money_kind}
use rukka_folio.Fault.{ok, or_key_error, >>=-eq-ok, guard->>-eq-ok}
use rukka_folio.Book.{Account, Line, find_account}
use rukka_folio.Book.Changed.{ok-injective}
use rukka_folio.Entry.{kind_passes}
use rukka_folio.Close.Balances.{Balances, balance_of, add_to}
use rukka_folio.Close.Effect.{balance_of-add_to}
use rukka_folio.Close.Lines.{UniqueNames, In, here, there}
use rukka_folio.Close.Carried.{once}
use rukka_folio.Report.Receipts.{
  Flows, add_flow, add_payment, fund_line, fund_lines, flow_line, flow_lines,
}
use rukka_folio.Report.Receipts.Posted.{moved}

pub find_cases : (o : Option Account) → (o ≡ none) ⊎ ((a : Account) × (o ≡ some a))
find_cases none = inl refl
find_cases (some a) = inr (a, refl)

pub passes_some :
    (accounts : List Account) (n : Text) (a : Account) (q : Kind → Bool)
    → find_account n accounts ≡ some a
    → kind_passes accounts q n ≡ q a.kind
unfolding kind_passes
passes_some accounts n a q e = rw (kind_passes, e)

pub passes_none :
    (accounts : List Account) (n : Text) (q : Kind → Bool)
    → find_account n accounts ≡ none
    → kind_passes accounts q n ≡ false
unfolding kind_passes
passes_none accounts n q e = rw (kind_passes, e)

-- The account that is found is one of the accounts.
some_injective : {a b : Account} → some a ≡ some b → a ≡ b
some_injective e = cc

found-In :
    (n : Text) (accounts : List Account) (a : Account)
    → find_account n accounts ≡ some a
    → In a accounts × (a.name ≡ n)
unfolding find_account
found-In n [] a e = cc
found-In n (d ∷ rest) a e = elim (Bool-cases (same d.name n)) [
  | inl k ↦
      let d_is_a : d ≡ a = some_injective (rw k at e) in
      rw (← d_is_a) (here rest, same→eq d.name n k)
  | inr k ↦ let (i, p) = found-In n rest a (rw k at e) in (there d i, p)
]

-- All that a dictionary has under the accounts' names.
abbrev pub total_of : List Account → Balances → ℤ
total_of accounts d = sum_by (λ a. balance_of a.name d) accounts

total-add_to :
    (m : Text) (x : ℤ) (d : Balances) (accounts : List Account)
    → total_of accounts (add_to m x d)
      ≡ total_of accounts d +ℤ sum_by (λ a. when (same m a.name) x) accounts
total-add_to m x d [] = omega int_laws
total-add_to m x d (a ∷ rest) =
    omega (int_laws, total-add_to m x d rest, balance_of-add_to a.name m x d)

abbrev pub net : List Account → Flows → ℤ
net accounts s = total_of accounts s.receipts -ℤ total_of accounts s.payments

-- A line from a fund is a payment where it is a cost.
unfoldable pub cost : List Account → Line → Bool
cost accounts x = is_pos x.1 && kind_passes accounts (in_kinds (expense ∷ fixed ∷ [])) x.0

module _ (accounts : List Account) (u : UniqueNames accounts) where
  total-found :
      (n : Text) (a : Account) (x : ℤ) (d : Balances)
      → find_account n accounts ≡ some a
      → total_of accounts (add_to n x d) ≡ total_of accounts d +ℤ x
  total-found n a x d e =
      let (i, p) = found-In n accounts a e in
      total-add_to n x d accounts
      ∙ ap (λ y. total_of accounts d +ℤ y)
          (ap (λ m. sum_by (λ (b : Account). when (same m b.name) x) accounts) (sym p)
            ∙ once x a u i)

  or_key-ok : (o : Option Account) (a : Account) → or_key_error o ≡ ok a → o ≡ some a
  or_key-ok none a h = cc
  or_key-ok (some b) a h = ap some (ok-injective h)

  net-add_flow :
      (x : Line) (a : Account) (s : Flows)
      → find_account x.0 accounts ≡ some a
      → net accounts (add_flow x s) ≡ net accounts s -ℤ x.1
  unfolding add_flow
  net-add_flow x a s e = elim (Bool-cases (is_neg x.1)) [
    | inl k ↦ rw k (omega (int_laws, total-found x.0 a (neg x.1) s.receipts e))
    | inr k ↦ rw k (omega (int_laws, total-found x.0 a x.1 s.payments e))
  ]

  flow_line-net :
      (vtype : Text) (x : Line) (s s' : Flows)
      → flow_line accounts vtype x s ≡ ok s'
      → net accounts s' ≡ net accounts s -ℤ x.1 +ℤ when (kind_passes accounts is_money_kind x.0) x.1
  unfolding flow_line
  flow_line-net vtype x s s' h =
      let (a, p, q) = >>=-eq-ok (or_key_error (find_account x.0 accounts)) _ h in
      let e = or_key-ok (find_account x.0 accounts) a p in
      let m = passes_some accounts x.0 a is_money_kind e in
      elim (Bool-cases (is_money_kind a.kind)) [
        | inl k ↦
            let same_flows : s ≡ s' = ok-injective (rw k at q) in
            rw (← same_flows, m, k) (omega int_laws)
        | inr k ↦
            let (g, r) = guard->>-eq-ok _ _ (ok (add_flow x s)) (rw k at q) in
            rw (← ok-injective r, m, k) (omega (int_laws, net-add_flow x a s e))
      ]

  pub flow_lines-net :
      (vtype : Text) (ls : List Line) (s s' : Flows)
      → flow_lines accounts vtype ls s ≡ ok s'
      → net accounts s' ≡ net accounts s -ℤ sum_by (λ x. x.1) ls +ℤ moved accounts ls
  unfolding flow_lines
  flow_lines-net vtype [] s s' h = rw (← ok-injective h) (omega int_laws)
  flow_lines-net vtype (x ∷ xs) s s' h =
      let (mid, p, q) = >>=-eq-ok (flow_line accounts vtype x s) _ h in
      omega (int_laws, flow_line-net vtype x s mid p, flow_lines-net vtype xs mid s' q)

  fund_line-net :
      (x : Line) (s s' : Flows)
      → fund_line accounts x s ≡ ok s'
      → net accounts s' ≡ net accounts s -ℤ when (cost accounts x) x.1
  unfolding fund_line cost
  fund_line-net x s s' h = elim (Bool-cases (is_pos x.1)) [
    | inl k ↦
        let (a, p, q) = >>=-eq-ok (or_key_error (find_account x.0 accounts)) _ (rw k at h) in
        let e = or_key-ok (find_account x.0 accounts) a p in
        let m = passes_some accounts x.0 a (in_kinds (expense ∷ fixed ∷ [])) e in
        elim (Bool-cases (in_kinds (expense ∷ fixed ∷ []) a.kind)) [
          | inl c ↦
              let paid : add_payment x s ≡ s' = ok-injective (rw c at q) in
              rw (← paid, k, m, c) (omega (int_laws, total-found x.0 a x.1 s.payments e))
          | inr c ↦
              let same_flows : s ≡ s' = ok-injective (rw c at q) in
              rw (← same_flows, k, m, c) (omega int_laws)
        ]
    | inr k ↦
        let same_flows : s ≡ s' = ok-injective (rw k at h) in rw (← same_flows, k) (omega int_laws)
  ]

  pub fund_lines-net :
      (ls : List Line) (s s' : Flows)
      → fund_lines accounts ls s ≡ ok s'
      → net accounts s' ≡ net accounts s -ℤ sum_by (λ x. when (cost accounts x) x.1) ls
  unfolding fund_lines
  fund_lines-net [] s s' h = rw (← ok-injective h) (omega int_laws)
  fund_lines-net (x ∷ xs) s s' h =
      let (mid, p, q) = >>=-eq-ok (fund_line accounts x s) _ h in
      omega (int_laws, fund_line-net x s mid p, fund_lines-net xs mid s' q)
