-- ===== src/Report/Receipts/Items.antt =====
-- The totals of the two sides of the Receipts & Payments Account.
use rukka_folio.Prelude.{
  when, ◌≡◌, refl, false, Bool-cases, inl, inr, List, [], ◌∷◌, ◌++◌, map, ℤ, pos, ◌+ℤ◌, int_laws,
  sum_by, sum_by-append, Text, txt, same,
}
use rukka_folio.Kinds.{is_money_kind}
use rukka_folio.Book.{Account, Line}
use rukka_folio.Close.Balances.{Balances, has_name, balance_of}
use rukka_folio.Report.Receipts.{
  Flows, no_flows, flow_items, left_items, right_items, item_total, money_accounts,
}
use rukka_folio.Report.Receipts.Vouchers.{total_of, net}

absent-balance_of : (n : Text) (d : Balances) → has_name n d ≡ false → balance_of n d ≡ pos 0
unfolding has_name balance_of
absent-balance_of n [] h = refl
absent-balance_of n ((m, x) ∷ d) h = elim (Bool-cases (same m n)) [
  | inl e ↦ let k = rw e at h in cc
  | inr e ↦ rw e (absent-balance_of n d (rw e at h))
]

flow_items-total_of :
    (word : Text) (d : Balances) (accounts : List Account)
    → item_total (flow_items word d accounts) ≡ total_of accounts d
unfolding flow_items
flow_items-total_of word d [] = refl
flow_items-total_of word d (a ∷ rest) = elim (Bool-cases (has_name a.name d)) [
  | inl e ↦ rw (e, flow_items-total_of word d rest)
  | inr e ↦ rw (e, absent-balance_of a.name d e) (omega (int_laws, flow_items-total_of word d rest))
]

money-item_total :
    (word : Text) (f : Account → ℤ) (accounts : List Account)
    → item_total (map (λ a. (word ++ a.name, f a)) (money_accounts accounts))
      ≡ sum_by (λ a. when (is_money_kind a.kind) (f a)) accounts
money-item_total word f [] = refl
money-item_total word f (a ∷ rest) = elim (Bool-cases (is_money_kind a.kind)) [
  | inl e ↦ rw (e, money-item_total word f rest)
  | inr e ↦ rw e (omega (int_laws, money-item_total word f rest))
]

pub left_items-total :
    (accounts : List Account) (s : Flows)
    → item_total (left_items accounts s)
      ≡ sum_by (λ a. when (is_money_kind a.kind) a.opening) accounts +ℤ total_of accounts s.receipts
unfolding left_items
left_items-total accounts s =
    let opened : List Line =
      map (λ (a : Account). (txt "To Opening balance — " ++ a.name, a.opening))
        (money_accounts accounts) in
    rw (
      sum_by-append (λ x. x.1) opened (flow_items (txt "To ") s.receipts accounts),
      money-item_total (txt "To Opening balance — ") (λ a. a.opening) accounts,
      flow_items-total_of (txt "To ") s.receipts accounts,
    )

pub right_items-total :
    (accounts : List Account) (s : Flows)
    → item_total (right_items accounts s)
      ≡ total_of accounts s.payments +ℤ sum_by (λ a. when (is_money_kind a.kind) a.closing) accounts
unfolding right_items
right_items-total accounts s =
    let closed : List Line =
      map (λ (a : Account). (txt "By Closing balance — " ++ a.name, a.closing))
        (money_accounts accounts) in
    rw (
      sum_by-append (λ x. x.1) (flow_items (txt "By ") s.payments accounts) closed,
      money-item_total (txt "By Closing balance — ") (λ a. a.closing) accounts,
      flow_items-total_of (txt "By ") s.payments accounts,
    )

pub net-no_flows : (accounts : List Account) → net accounts no_flows ≡ pos 0
unfolding balance_of
net-no_flows [] = omega int_laws
net-no_flows (a ∷ rest) = omega (int_laws, net-no_flows rest)
