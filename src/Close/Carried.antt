-- ===== src/Close/Carried.antt =====
-- What the balances after the year close add up to.
use rukka_folio.Prelude.{
  when, ◌≡◌, refl, sym, ap, ◌∙◌, Bool, true, false, Bool-cases, inl, inr, List, [], ◌∷◌,
  if◌then◌else◌, ℤ, pos, neg, ◌+ℤ◌, ◌-ℤ◌, int_laws, is_nil, nil→eq, sum_by, Text, same, same→eq,
  eq→same, same_refl, arith,
}
use rukka_folio.Kinds.{Kind, income, expense, drawings, shareout, is_kind, in_kinds, is_equity_kind}
use rukka_folio.Book.{Account, Book, has_account}
use rukka_folio.Close.{open_heads, result_of}
use rukka_folio.Close.Lines.{UniqueNames, In, here, there, later-differs}
use rukka_folio.Close.Nil.{CanClose, head_kinds, is_head, drawn_total, In-unique}
use rukka_folio.Close.Done.{carried_to}

-- The heads of a kind that are not nil have all of the kind's balance.
open_heads-total :
    (k : Kind) (accounts : List Account)
    → sum_by (λ a. a.closing) (open_heads k accounts)
      ≡ sum_by (λ a. when (is_kind a.kind k) a.closing) accounts
open_heads-total k [] = refl
open_heads-total k (a ∷ rest) = elim (Bool-cases (is_kind a.kind k)) [
  | inl e ↦ elim (Bool-cases (is_nil a.closing)) [
    | inl z ↦ rw (e, z, open_heads-total k rest, nil→eq a.closing z) (omega int_laws)
    | inr z ↦ rw (e, z, open_heads-total k rest)
  ]
  | inr e ↦ rw (e, open_heads-total k rest) (omega int_laws)
]

open_heads-neg :
    (k : Kind) (accounts : List Account)
    → sum_by (λ a. neg a.closing) (open_heads k accounts)
      ≡ neg (sum_by (λ a. when (is_kind a.kind k) a.closing) accounts)
open_heads-neg k [] = omega int_laws
open_heads-neg k (a ∷ rest) = elim (Bool-cases (is_kind a.kind k)) [
  | inl e ↦ elim (Bool-cases (is_nil a.closing)) [
    | inl z ↦ rw (e, z, open_heads-neg k rest) (omega (int_laws, nil→eq a.closing z))
    | inr z ↦ rw (e, z, open_heads-neg k rest) (omega int_laws)
  ]
  | inr e ↦ rw (e, open_heads-neg k rest) (omega int_laws)
]

-- The result is what the heads hold, with the sign turned.
pub result_of-heads :
    (accounts : List Account)
    → result_of accounts
      ≡ neg (
          sum_by (λ a. when (is_kind a.kind income) a.closing) accounts
          +ℤ sum_by (λ a. when (is_kind a.kind expense) a.closing) accounts)
result_of-heads accounts =
    rw (open_heads-neg income accounts, open_heads-total expense accounts) (omega int_laws)

-- A name that one account has occurs once.
absent-nil :
    (x : ℤ) (o : Account) (accounts : List Account)
    → has_account o.name accounts ≡ false
    → sum_by (λ a. when (same o.name a.name) x) accounts ≡ pos 0
unfolding has_account
absent-nil x o [] h = refl
absent-nil x o (a ∷ rest) h =
    let (e, k) = parts (same a.name o.name) (has_account o.name rest) h in
    rw (flipped a e, absent-nil x o rest k) (omega int_laws)
  where
    parts : (p q : Bool) → (if p then true else q) ≡ false → (p ≡ false) × (q ≡ false)
    parts p q h = ground arith

    flipped : (a : Account) → same a.name o.name ≡ false → same o.name a.name ≡ false
    flipped a e = elim (Bool-cases (same o.name a.name)) [
      | inl k ↦ let back = eq→same a.name o.name (sym (same→eq o.name a.name k)) in cc
      | inr k ↦ k
    ]

pub once :
    (x : ℤ) (o : Account) {accounts : List Account}
    → UniqueNames accounts
    → In o accounts
    → sum_by (λ a. when (same o.name a.name) x) accounts ≡ x
once x o u (here rest) = rw (same_refl o.name, absent-nil x o rest u.0) (omega int_laws)
once x o u (there b {rest = rest} i) =
    let later = later-differs o b rest u.0 i in
    let e : same o.name b.name ≡ false = elim (Bool-cases (same o.name b.name)) [
      | inl k ↦ let back = eq→same b.name o.name (sym (same→eq o.name b.name k)) in cc
      | inr k ↦ k
    ] in
    rw (e, once x o u.1 i) (omega int_laws)

-- Own money that is a head is drawings or shared out.
head-equity :
    (k : Kind) (x : ℤ)
    → in_kinds head_kinds k ≡ true
    → when (is_equity_kind k) x ≡ when (is_kind k drawings) x +ℤ when (is_kind k shareout) x
unfolding is_equity_kind ◌+ℤ◌
head-equity k x h = ground arith

other-nil :
    (k : Kind) (x : ℤ)
    → in_kinds head_kinds k ≡ false
    → (when (is_kind k drawings) x ≡ pos 0) × (when (is_kind k shareout) x ≡ pos 0)
other-nil k x h = ground arith

module _ (b : Book) (res own : Text) (o : Account) (c : CanClose b res own o)
    (equity : is_equity_kind o.kind ≡ true) where
  -- What the result and the drawings add to own money.
  abbrev to_owner : ℤ
  to_owner = drawn_total drawings b +ℤ drawn_total shareout b -ℤ result_of b.accounts

  pub owner_only : (a : Account) → In a b.accounts → same own a.name ≡ true → a ≡ o
  owner_only a i e = In-unique a o c.unique i c.owner_in (ap (λ n. same n a.name) c.owner_name ∙ e)

  carried_part :
      (a : Account)
      → In a b.accounts
      → when (is_equity_kind a.kind) (carried_to b own a)
        ≡ when (is_equity_kind a.kind) a.closing
          -ℤ when (is_kind a.kind drawings) a.closing
          -ℤ when (is_kind a.kind shareout) a.closing
          +ℤ when (same own a.name) to_owner
  carried_part a i = elim (Bool-cases (is_head a)) [
    | inl h ↦ elim (Bool-cases (same own a.name)) [
      | inl e ↦ let no_head : is_head a ≡ false = ap is_head (owner_only a i e) ∙ c.owner_kind in cc
      | inr e ↦
          rw (h, e, when-nil (is_equity_kind a.kind))
            (omega (int_laws, head-equity a.kind a.closing h))
    ]
    | inr h ↦
        let (d, s) = other-nil a.kind a.closing h in
        elim (Bool-cases (same own a.name)) [
          | inl e ↦
              let q : is_equity_kind a.kind ≡ true =
                ap (λ (x : Account). is_equity_kind x.kind) (owner_only a i e) ∙ equity in
              rw (h, e, d, s, q) (omega int_laws)
          | inr e ↦ rw (h, e, d, s) (omega int_laws)
        ]
  ]
    where
      when-nil : (p : Bool) → when p (pos 0) ≡ pos 0
      when-nil true = refl
      when-nil false = refl

  carried_sum :
      (accounts : List Account)
      → ((a : Account) → In a accounts → In a b.accounts)
      → sum_by (λ a. when (is_equity_kind a.kind) (carried_to b own a)) accounts
        ≡ sum_by (λ a. when (is_equity_kind a.kind) a.closing) accounts
          -ℤ sum_by (λ a. when (is_kind a.kind drawings) a.closing) accounts
          -ℤ sum_by (λ a. when (is_kind a.kind shareout) a.closing) accounts
          +ℤ sum_by (λ a. when (same own a.name) to_owner) accounts
  carried_sum [] h = omega int_laws
  carried_sum (a ∷ rest) h =
      omega (int_laws, carried_part a (h a (here rest)), carried_sum rest (λ x i. h x (there a i)))

  -- The own money after the close is the own money before it, with the result.
  pub carried-equity :
      sum_by (λ a. when (is_equity_kind a.kind) (carried_to b own a)) b.accounts
      ≡ sum_by (λ a. when (is_equity_kind a.kind) a.closing) b.accounts -ℤ result_of b.accounts
  carried-equity =
      let x = to_owner in
      let one : sum_by (λ a. when (same own a.name) x) b.accounts ≡ x =
        ap (λ n. sum_by (λ (a : Account). when (same n a.name) x) b.accounts) (sym c.owner_name)
        ∙ once x o c.unique c.owner_in in
      omega (
        int_laws,
        carried_sum b.accounts (λ a i. i),
        one,
        open_heads-total drawings b.accounts,
        open_heads-total shareout b.accounts,
      )
