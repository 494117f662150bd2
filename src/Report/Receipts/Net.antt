-- ===== src/Report/Receipts/Net.antt =====
-- What every entry adds to the receipts and the payments: the money it moved, unless it is a transfer.
use rukka_folio.Prelude.{
  not, leb, length, mem, when, ◌≡◌, refl, ap, Bool, true, false, ◌||◌, Bool-cases, inl, inr, List,
  [], ◌∷◌, All, ℤ, pos, ◌+ℤ◌, ◌-ℤ◌, int_laws, nil→eq, is_nil, sum_by, some_of, Text, txt, same,
  same→eq, starts_with, arith,
}
use rukka_folio.Kinds.{expense, fixed, in_kinds, is_money_kind}
use rukka_folio.Fault.{ok, >>=-eq-ok, guard->>-eq-ok, guard-eq-ok}
use rukka_folio.Book.{Account, Line, Voucher}
use rukka_folio.Book.Changed.{ok-injective}
use rukka_folio.Vtypes.{vtypes}
use rukka_folio.Entry.{
  distinct, names_of, check_lines, kind_passes, money_line, check_fund, check_type,
  validate_voucher, validate_vouchers,
}
use rukka_folio.Close.Lines.{UniqueNames}
use rukka_folio.Report.Receipts.{Flows, flow_voucher, flows_of}
use rukka_folio.Report.Receipts.Posted.{moved, SameKinds, moved-SameKinds}
use rukka_folio.Report.Receipts.Vouchers.{net, cost, flow_lines-net, fund_lines-net}
use rukka_folio.Report.Receipts.Funds.{check_fund-costs}

-- The money that transfers moved out of the money accounts, or into them.
unfoldable pub contra_moved : List Account → List Voucher → ℤ
contra_moved accounts = sum_by (λ w. when (same w.vtype (txt "Contra")) (moved accounts w.lines))

-- What `validate_voucher` says of an entry's type, and its balance.
pub record IsTyped (accounts : List Account) (w : Voucher) : Type 0 where
  pub balanced : sum_by (λ l. l.1) w.lines ≡ pos 0
  pub shaped : check_type accounts w.vtype w.lines ≡ ok tt

no_money-moved :
    (accounts : List Account) (ls : List Line)
    → some_of (money_line accounts) ls ≡ false
    → moved accounts ls ≡ pos 0
unfolding money_line
no_money-moved accounts [] h = refl
no_money-moved accounts (l ∷ ls) h =
    let (p, q) =
      parts (kind_passes accounts is_money_kind l.0) (some_of (money_line accounts) ls) h in
    rw (p, no_money-moved accounts ls q) (omega int_laws)
  where
    parts : (p q : Bool) → (p || q) ≡ false → (p ≡ false) × (q ≡ false)
    parts p q h = ground arith

not-true : (x : Bool) → not x ≡ true → x ≡ false
not-true x h = ground arith

journal-differs :
    (v t : Text)
    → starts_with v (txt "Journal") ≡ true
    → starts_with t (txt "Journal") ≡ false
    → same v t ≡ false
journal-differs v t h g = elim (Bool-cases (same v t)) [
  | inl e ↦ let k = ap (λ s. starts_with s (txt "Journal")) (same→eq v t e) in cc
  | inr e ↦ e
]

-- A journal entry moves no money.
journal-moved :
    (accounts : List Account) (w : Voucher)
    → IsTyped accounts w
    → starts_with w.vtype (txt "Journal") ≡ true
    → moved accounts w.lines ≡ pos 0
unfolding check_type starts_with txt
journal-moved accounts w h j =
    let differs =
      λ (t : Text) (g : starts_with t (txt "Journal") ≡ false). journal-differs w.vtype t j g in
    let shaped =
      rw
        (
          differs (txt "Contra") refl,
          differs (txt "Payment (from a fund)") refl,
          differs (txt "Receipt") refl,
          differs (txt "Payment") refl,
        )
        at h.shaped in
    no_money-moved accounts w.lines
      (not-true (some_of (money_line accounts) w.lines) (guard-eq-ok _ _ shaped))

check_fund-of :
    (accounts : List Account) (w : Voucher)
    → IsTyped accounts w
    → same w.vtype (txt "Contra") ≡ false
    → same w.vtype (txt "Payment (from a fund)") ≡ true
    → check_fund accounts w.lines ≡ ok tt
unfolding check_type
check_fund-of accounts w h c f = rw (c, f) at h.shaped

costs-SameKinds :
    (before after : List Account)
    → SameKinds before after
    → (ls : List Line)
    → sum_by (λ x. when (cost after x) x.1) ls ≡ sum_by (λ x. when (cost before x) x.1) ls
unfolding cost
costs-SameKinds before after e [] = refl
costs-SameKinds before after e (x ∷ xs) =
    rw (e (in_kinds (expense ∷ fixed ∷ [])) x.0, costs-SameKinds before after e xs)

module _ (before after : List Account) (e : SameKinds before after) (u : UniqueNames after) where
  -- What a voucher that is not a transfer adds to the receipts less the payments is the money it
  -- moved.
  flow_voucher-net :
      (w : Voucher) (s s' : Flows)
      → IsTyped before w
      → flow_voucher after w s ≡ ok s'
      → net after s'
        ≡ net after s
          +ℤ (moved before w.lines -ℤ when (same w.vtype (txt "Contra")) (moved before w.lines))
  unfolding flow_voucher
  flow_voucher-net w s s' h g = elim (Bool-cases (same w.vtype (txt "Contra"))) [
    | inl c ↦
        let same_flows : s ≡ s' = ok-injective (rw c at g) in rw (← same_flows, c) (omega int_laws)
    | inr c ↦ elim (Bool-cases (starts_with w.vtype (txt "Journal"))) [
      | inl j ↦
          let same_flows : s ≡ s' = ok-injective (rw (c, j) at g) in
          rw (← same_flows, c, journal-moved before w h j) (omega int_laws)
      | inr j ↦ elim (Bool-cases (same w.vtype (txt "Payment (from a fund)"))) [
        | inl f ↦
            let spent = check_fund-costs before w.lines h.balanced (check_fund-of before w h c f) in
            let total = fund_lines-net after u w.lines s s' (rw (c, j, f) at g) in
            rw c (omega (int_laws, spent, total, costs-SameKinds before after e w.lines))
        | inr f ↦
            let total = flow_lines-net after u w.vtype w.lines s s' (rw (c, j, f) at g) in
            rw c (omega (int_laws, h.balanced, total, moved-SameKinds before after e w.lines))
      ]
    ]
  ]

  pub flows_of-net :
      (ws : List Voucher) (s s' : Flows)
      → All (IsTyped before) ws
      → flows_of after ws s ≡ ok s'
      → net after s'
        ≡ net after s +ℤ (sum_by (λ w. moved before w.lines) ws -ℤ contra_moved before ws)
  unfolding flows_of contra_moved
  flows_of-net [] s s' h g = rw (← ok-injective g) (omega int_laws)
  flows_of-net (w ∷ ws) s s' h g =
      let (mid, p, q) = >>=-eq-ok (flow_voucher after w s) _ g in
      omega (int_laws, flow_voucher-net w s mid h.0 p, flows_of-net ws mid s' h.1 q)

validate_voucher-IsTyped :
    (accounts : List Account) (w : Voucher)
    → validate_voucher accounts w ≡ ok tt
    → IsTyped accounts w
unfolding validate_voucher
validate_voucher-IsTyped accounts w h =
    let (two, h1) = guard->>-eq-ok (leb 2 (length w.lines)) _ _ h in
    let (nil, h2) = guard->>-eq-ok (is_nil (sum_by (λ l. l.1) w.lines)) _ _ h1 in
    let (one, h3) = guard->>-eq-ok (distinct (names_of w.lines)) _ _ h2 in
    let (u, lines, h4) = >>=-eq-ok (check_lines accounts w.lines) _ h3 in
    let (known, h5) = guard->>-eq-ok (mem w.vtype vtypes) _ _ h4 in
    let (u', shape, h6) = >>=-eq-ok (check_type accounts w.vtype w.lines) _ h5 in
    record { balanced = nil→eq _ nil; shaped = shape }

pub validate_vouchers-IsTyped :
    (accounts : List Account) (ws : List Voucher)
    → validate_vouchers accounts ws ≡ ok tt
    → All (IsTyped accounts) ws
unfolding validate_vouchers
validate_vouchers-IsTyped accounts [] h = tt
validate_vouchers-IsTyped accounts (w ∷ ws) h =
    let (u, p, q) = >>=-eq-ok (validate_voucher accounts w) _ h in
    (validate_voucher-IsTyped accounts w p, validate_vouchers-IsTyped accounts ws q)
