-- ===== src/Report/CarryForward/Sides.antt =====
-- The two sides of the carry-forward have one total.
use rukka_folio.Prelude.{
  refl, same, when, ap, eq→eqb, nil→eq, ◌≡◌, ◌∙◌, true, false, ◌&&◌, Bool, Bool-cases, inl, inr, ℕ,
  List, [], ◌∷◌, Text, ℤ, ◌+ℤ◌, ◌-ℤ◌, int_laws, is_pos, is_nil, sum_by, arith, some,
}
use rukka_folio.Kinds.{Kind, in_kinds, is_bs_kind, is_equity_kind}
use rukka_folio.Fault.{ok}
use rukka_folio.Book.{Account, Book}
use rukka_folio.Queries.Posted.{IsPosted}
use rukka_folio.Close.{result_name, owner_account}
use rukka_folio.Close.Balances.{Balances, balance_of}
use rukka_folio.Close.Lines.{In, here, there}
use rukka_folio.Close.Nil.{head_kinds, CanClose, is_head}
use rukka_folio.Close.Done.{carried_to, post_close_balances-carried}
use rukka_folio.Close.Carried.{result_of-heads, carried-equity, owner_only}
use rukka_folio.Report.Markdown.{Page}
use rukka_folio.Report.BalanceSheet.Sums.{closing_when, is_placed, closing_parts, when-All}
use rukka_folio.Report.BalanceSheet.Agrees.{closings-nil}
use rukka_folio.Report.CarryForward.{
  Carried, carried_of, CarrySums, carry_step, carry_sums, no_rows, carry_page, sec_carry_forward,
}

carry_step-sides :
    (x : Carried) (s : CarrySums)
    → (carry_step x s).tdr -ℤ (carry_step x s).tcr ≡ s.tdr -ℤ s.tcr +ℤ x.bal
unfolding carry_step
carry_step-sides x s = elim (Bool-cases (is_pos x.bal)) [
  | inl e ↦ rw e (omega int_laws)
  | inr e ↦ rw e (omega int_laws)
]

carry_sums-sides :
    (xs : List Carried) (s : CarrySums)
    → (carry_sums xs s).tdr -ℤ (carry_sums xs s).tcr ≡ s.tdr -ℤ s.tcr +ℤ sum_by (λ x. x.bal) xs
unfolding carry_sums
carry_sums-sides [] s = omega int_laws
carry_sums-sides (x ∷ xs) s = rw (carry_sums-sides xs) (omega (int_laws, carry_step-sides x s))

-- The rows hold all that the balance-sheet accounts carry.
carried_of-total :
    (pcb : Balances) (accounts : List Account)
    → sum_by (λ x. x.bal) (carried_of pcb accounts)
      ≡ sum_by (λ a. when (is_bs_kind a.kind) (balance_of a.name pcb)) accounts
unfolding carried_of
carried_of-total pcb [] = refl
carried_of-total pcb (a ∷ rest) =
    let x = balance_of a.name pcb in
    elim (Bool-cases (is_bs_kind a.kind)) [
      | inl e ↦ elim (Bool-cases (is_nil x)) [
        | inl z ↦ rw (e, z, carried_of-total pcb rest) (omega (int_laws, nil→eq x z))
        | inr z ↦ rw (e, z, carried_of-total pcb rest)
      ]
      | inr e ↦ rw (e, carried_of-total pcb rest) (omega int_laws)
    ]

bs_split :
    (k : Kind) (x : ℤ) → when (is_bs_kind k) x ≡ when (is_placed k) x +ℤ when (is_equity_kind k) x
unfolding is_bs_kind is_equity_kind ◌+ℤ◌
bs_split k x = ground arith

bs_sum :
    (f : Account → ℤ) (accounts : List Account)
    → sum_by (λ a. when (is_bs_kind a.kind) (f a)) accounts
      ≡ sum_by (λ a. when (is_placed a.kind) (f a)) accounts
        +ℤ sum_by (λ a. when (is_equity_kind a.kind) (f a)) accounts
bs_sum f [] = omega int_laws
bs_sum f (a ∷ rest) = omega (int_laws, bs_sum f rest, bs_split a.kind (f a))

head-placed : (k : Kind) → in_kinds head_kinds k ≡ true → is_placed k ≡ false
unfolding is_bs_kind is_equity_kind
head-placed k h = ground arith

module _ (b : Book) (res own : Text) (o : Account) (c : CanClose b res own o)
    (equity : is_equity_kind o.kind ≡ true) where
  -- The close leaves the accounts alone that are neither own money nor heads.
  placed-carried :
      (a : Account)
      → In a b.accounts
      → when (is_placed a.kind) (carried_to b own a) ≡ when (is_placed a.kind) a.closing
  placed-carried a i = elim (Bool-cases (is_head a)) [
    | inl h ↦ rw (head-placed a.kind h)
    | inr h ↦ elim (Bool-cases (same own a.name)) [
      | inl e ↦
          let q : is_equity_kind a.kind ≡ true =
            ap (λ (x : Account). is_equity_kind x.kind) (owner_only b res own o c equity a i e)
            ∙ equity in
          let out : is_placed a.kind ≡ false = rw q (and_false (is_bs_kind a.kind)) in rw out
      | inr e ↦ rw (h, e)
    ]
  ]
    where
      and_false : (p : Bool) → (p && false) ≡ false
      and_false true = refl
      and_false false = refl

  placed-sum :
      (accounts : List Account)
      → ((a : Account) → In a accounts → In a b.accounts)
      → sum_by (λ a. when (is_placed a.kind) (carried_to b own a)) accounts
        ≡ closing_when (λ a. is_placed a.kind) accounts
  placed-sum [] h = refl
  placed-sum (a ∷ rest) h =
      omega (int_laws, placed-carried a (h a (here rest)), placed-sum rest (λ x i. h x (there a i)))

  -- After the close the balance-sheet accounts hold what all the accounts held before it.
  carried-bs :
      sum_by (λ a. when (is_bs_kind a.kind) (carried_to b own a)) b.accounts
      ≡ sum_by (λ a. a.closing) b.accounts
  carried-bs = omega (
    int_laws,
    bs_sum (carried_to b own) b.accounts,
    placed-sum b.accounts (λ a i. i),
    carried-equity b res own o c equity,
    closing_parts b.accounts,
    result_of-heads b.accounts,
  )

-- For a book that `post` made of validated entries of the year from openings that balance, with no
-- partners, distinct account names, none of them the result account's, and an owner's account that is
-- own money and no drawings or share-out account, `sec_carry_forward` returns its page: the Dr and the
-- Cr balances that open the next year have one total.
pub sec_carry_forward_returns :
    (b b' : Book) (own : Text) (o : Account) (num : ℕ)
    → IsPosted b b'
    → CanClose b' (result_name b'.style) own o
    → is_equity_kind o.kind ≡ true
    → b'.partners ≡ []
    → owner_account b'.accounts ≡ some own
    → (page : Page) × (sec_carry_forward b' num ≡ ok page)
unfolding sec_carry_forward
sec_carry_forward_returns b b' own o num h c equity alone owner =
    let (bal, closed, carried) = post_close_balances-carried b' own o c alone owner in
    let s = carry_sums (carried_of bal b'.accounts) no_rows in
    let agree : s.tdr ≡ s.tcr = omega (
      int_laws,
      carry_sums-sides (carried_of bal b'.accounts) no_rows,
      carried_of-total bal b'.accounts,
      when-All (λ a. balance_of a.name bal) (carried_to b' own) (λ a. is_bs_kind a.kind) b'.accounts
          carried,
      carried-bs b' (result_name b'.style) own o c equity,
      closings-nil b b' h,
    ) in
    (carry_page b' num bal s, rw (closed, eq→eqb _ _ agree))
