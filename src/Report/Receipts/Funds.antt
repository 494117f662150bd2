-- ===== src/Report/Receipts/Funds.antt =====
-- An entry from a fund: its cost is the money that was paid.
use rukka_folio.Prelude.{
  length, ◌==◌, some_of, if◌then◌else◌, when, ◌≡◌, refl, sym, ◌∙◌, Bool, true, false, ◌&&◌, ◌||◌,
  and-left, and-right, Bool-cases, inl, inr, List, [], ◌∷◌, ℤ, pos, neg, ◌+ℤ◌, ◌-ℤ◌, int_laws,
  eqb_ℤ, eqb→eq, is_pos, is_neg, sum_by, keep, every, arith,
}
use rukka_folio.Kinds.{Kind, fund, income, expense, fixed, is_kind, in_kinds, is_money_kind}
use rukka_folio.Fault.{fund_shape, fund_sides, fund_amount, ok, guard->>-eq-ok, guard-eq-ok}
use rukka_folio.Book.{Account, Line, find_account}
use rukka_folio.Entry.{kind_passes, money_line, line_of_kind, check_fund}
use rukka_folio.Report.Receipts.Posted.{moved}
use rukka_folio.Report.Receipts.Vouchers.{find_cases, passes_some, passes_none, cost}

abbrev costs : List Kind
costs = expense ∷ fixed ∷ []

abbrev debit_kinds : List Kind
debit_kinds = fund ∷ costs

-- The four parts of a line of kind k.
split_kind :
    (k : Kind) (x : ℤ)
    → (if is_pos x then in_kinds debit_kinds k else true) ≡ true
    → (if is_neg x then is_money_kind k || is_kind income k else true) ≡ true
    → x
      ≡ when (is_pos x && is_kind fund k) x
        +ℤ when (is_pos x && in_kinds costs k) x
        -ℤ when (is_neg x && is_kind income k) (neg x)
        +ℤ when (is_money_kind k) x
unfolding is_money_kind ◌+ℤ◌ ◌-ℤ◌ neg
split_kind k x h g = ground arith

nil_line :
    (x : ℤ)
    → (if is_pos x then false else true) ≡ true
    → (if is_neg x then false else true) ≡ true
    → x ≡ pos 0
nil_line x h g = ground arith

every-keep :
    (p q : Line → Bool) (ls : List Line)
    → every p (keep q ls) ≡ every (λ l. if q l then p l else true) ls
every-keep p q [] = refl
every-keep p q (l ∷ ls) = elim (Bool-cases (q l)) [
  | inl e ↦ rw (e, every-keep p q ls)
  | inr e ↦ rw (e, every-keep p q ls)
]

sum-keep-keep :
    (p q : Line → Bool) (f : Line → ℤ) (ls : List Line)
    → sum_by f (keep p (keep q ls)) ≡ sum_by (λ l. when (q l && p l) (f l)) ls
sum-keep-keep p q f [] = refl
sum-keep-keep p q f (l ∷ ls) = elim (Bool-cases (q l)) [
  | inl e ↦ elim (Bool-cases (p l)) [
    | inl k ↦ rw (e, k, sum-keep-keep p q f ls)
    | inr k ↦ rw (e, k, sum-keep-keep p q f ls) (omega int_laws)
  ]
  | inr e ↦ rw (e, sum-keep-keep p q f ls) (omega int_laws)
]

module _ (accounts : List Account) where
  abbrev debit_ok : Line → Bool
  debit_ok l = if is_pos l.1 then kind_passes accounts (in_kinds debit_kinds) l.0 else true

  abbrev credit_ok : Line → Bool
  credit_ok l =
      if is_neg l.1
      then kind_passes accounts is_money_kind l.0 || kind_passes accounts (is_kind income) l.0
      else true

  abbrev of_fund : Line → ℤ
  of_fund l = when (is_pos l.1 && kind_passes accounts (is_kind fund) l.0) l.1

  abbrev of_income : Line → ℤ
  of_income l = when (is_neg l.1 && kind_passes accounts (is_kind income) l.0) (neg l.1)

  abbrev of_cost : Line → ℤ
  of_cost l = when (is_pos l.1 && kind_passes accounts (in_kinds costs) l.0) l.1

  abbrev of_money : Line → ℤ
  of_money l = when (kind_passes accounts is_money_kind l.0) l.1

  split_line :
      (l : Line)
      → debit_ok l ≡ true
      → credit_ok l ≡ true
      → l.1 ≡ of_fund l +ℤ of_cost l -ℤ of_income l +ℤ of_money l
  split_line l h g = elim (find_cases (find_account l.0 accounts)) [
    | inl e ↦
        let f = passes_none accounts l.0 (is_kind fund) e in
        let c = passes_none accounts l.0 (in_kinds costs) e in
        let d = passes_none accounts l.0 (in_kinds debit_kinds) e in
        let i = passes_none accounts l.0 (is_kind income) e in
        let m = passes_none accounts l.0 is_money_kind e in
        let nil = nil_line l.1 (rw d at h) (rw (i, m) at g) in rw (f, c, i, m, nil) (omega int_laws)
    | inr (a, e) ↦
        let f = passes_some accounts l.0 a (is_kind fund) e in
        let c = passes_some accounts l.0 a (in_kinds costs) e in
        let d = passes_some accounts l.0 a (in_kinds debit_kinds) e in
        let i = passes_some accounts l.0 a (is_kind income) e in
        let m = passes_some accounts l.0 a is_money_kind e in
        rw (f, c, i, m) (split_kind a.kind l.1 (rw d at h) (rw (i, m) at g))
  ]

  split_lines :
      (ls : List Line)
      → every debit_ok ls ≡ true
      → every credit_ok ls ≡ true
      → sum_by (λ l. l.1) ls
        ≡ sum_by of_fund ls +ℤ sum_by of_cost ls -ℤ sum_by of_income ls +ℤ sum_by of_money ls
  split_lines [] h g = omega int_laws
  split_lines (l ∷ ls) h g = omega (
    int_laws,
    split_line l (and-left (debit_ok l) _ h) (and-left (credit_ok l) _ g),
    split_lines ls (and-right (debit_ok l) _ h) (and-right (credit_ok l) _ g),
  )

  -- What `check_fund` lets pass spends on costs what it takes from the money accounts.
  pub check_fund-costs :
      (ls : List Line)
      → sum_by (λ l. l.1) ls ≡ pos 0
      → check_fund accounts ls ≡ ok tt
      → sum_by (λ l. when (cost accounts l) l.1) ls ≡ neg (moved accounts ls)
  unfolding check_fund money_line line_of_kind cost
  check_fund-costs ls nil h =
      let drs = keep (λ l. is_pos l.1) ls in
      let crs = keep (λ l. is_neg l.1) ls in
      let fund_part = sum_by (λ l. l.1) (keep (line_of_kind accounts fund) drs) in
      let income_part = sum_by (λ l. neg l.1) (keep (line_of_kind accounts income) crs) in
      let money_part = sum_by (λ l. neg l.1) (keep (money_line accounts) crs) in
      let debits_ok = every (λ l. kind_passes accounts (in_kinds debit_kinds) l.0) drs in
      let credits_ok = every (λ l. money_line accounts l || line_of_kind accounts income l) crs in
      let (shape, h1) =
        guard->>-eq-ok
          ((length (keep (line_of_kind accounts fund) drs) == 1)
            && (length (keep (line_of_kind accounts income) crs) == 1)
            && some_of (money_line accounts) ls
            && (length ls == 4))
          fund_shape _ h in
      let (sides, h2) = guard->>-eq-ok (debits_ok && credits_ok) fund_sides _ h1 in
      let amounts =
        guard-eq-ok (eqb_ℤ fund_part income_part && eqb_ℤ income_part money_part) fund_amount h2 in
      let debits =
        sym (every-keep (λ l. kind_passes accounts (in_kinds debit_kinds) l.0) (λ l. is_pos l.1) ls)
        ∙ and-left debits_ok credits_ok sides in
      let credits =
        sym (
          every-keep
            (λ l.
              kind_passes accounts is_money_kind l.0 || kind_passes accounts (is_kind income) l.0)
            (λ l. is_neg l.1) ls)
        ∙ and-right debits_ok credits_ok sides in
      let fund_is_income =
        eqb→eq fund_part income_part
          (and-left (eqb_ℤ fund_part income_part) (eqb_ℤ income_part money_part) amounts) in
      omega (
        int_laws,
        split_lines ls debits credits,
        sum-keep-keep (λ l. kind_passes accounts (is_kind fund) l.0) (λ l. is_pos l.1) (λ l. l.1)
            ls,
        sum-keep-keep (λ l. kind_passes accounts (is_kind income) l.0) (λ l. is_neg l.1)
            (λ l. neg l.1) ls,
        fund_is_income,
        nil,
      )
