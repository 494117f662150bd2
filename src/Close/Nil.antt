-- ===== src/Close/Nil.antt =====
-- Where the close leaves each name: the heads and the result account at nil, own money with the
-- result and the drawings, every other account as it was.
use rukka_folio.Prelude.{
  ℕ, ◌≡◌, refl, sym, ◌∙◌, Bool, true, false, ◌||◌, Bool-cases, inl, inr, List, [], ◌∷◌,
  if◌then◌else◌, ◌==◌, ℤ, pos, neg, ◌+ℤ◌, ◌-ℤ◌, +ℤ-zero, int_laws, sum_by, sum_by-append, is_nil,
  ==_iff, Text, same, same→eq, eq→same, arith, ap,
}
use rukka_folio.Kinds.{Kind, is_kind, in_kinds, income, expense, drawings, shareout, tag}
use rukka_folio.Book.{Account, Book, Line, has_account}
use rukka_folio.Close.{open_heads, result_of, income_total, expense_total}
use rukka_folio.Close.Effect.{amount_on}
use rukka_folio.Close.Lines.{
  UniqueNames, In, here, there, In-has_account, heads_at, later-differs, heads-absent, heads-amount,
}
use rukka_folio.Close.Heads.{total_on}

abbrev pub head_kinds : List Kind
head_kinds = income ∷ expense ∷ drawings ∷ shareout ∷ []

neg-nil : (a : Account) → is_nil a.closing ≡ true → neg a.closing ≡ pos 0
unfolding neg
neg-nil a h = ground arith

-- What a kind's heads put on the name of account a.
abbrev pub if_kind : Kind → Account → ℤ
if_kind k a = if is_kind a.kind k then neg a.closing else pos 0

abbrev four_at : ℤ → ℕ → ℤ
four_at x t =
    (if t == tag income then x else pos 0)
    +ℤ (if t == tag expense then x else pos 0)
    +ℤ ((if t == tag drawings then x else pos 0) +ℤ (if t == tag shareout then x else pos 0))

abbrev four_test : ℕ → Bool
four_test t =
    (t == tag income)
    || ((t == tag expense) || ((t == tag drawings) || ((t == tag shareout) || false)))

four_at_head : (t : ℕ) (x : ℤ) → four_test t ≡ true → four_at x t ≡ x
four_at_head t x h = elim (Bool-cases (t == tag income)) [
  | inl p ↦ rw ((==_iff t (tag income)).0 p) (omega int_laws)
  | inr p ↦ elim (Bool-cases (t == tag expense)) [
    | inl q ↦ rw ((==_iff t (tag expense)).0 q) (omega int_laws)
    | inr q ↦ elim (Bool-cases (t == tag drawings)) [
      | inl r ↦ rw ((==_iff t (tag drawings)).0 r) (omega int_laws)
      | inr r ↦ elim (Bool-cases (t == tag shareout)) [
        | inl u ↦ rw ((==_iff t (tag shareout)).0 u) (omega int_laws)
        | inr u ↦ cc (rw (p, q, r, u) at h)
      ]
    ]
  ]
]

four_at_other : (t : ℕ) (x : ℤ) → four_test t ≡ false → four_at x t ≡ pos 0
four_at_other t x h = elim (Bool-cases (t == tag income)) [
  | inl p ↦ cc (rw p at h)
  | inr p ↦ elim (Bool-cases (t == tag expense)) [
    | inl q ↦ cc (rw (p, q) at h)
    | inr q ↦ elim (Bool-cases (t == tag drawings)) [
      | inl r ↦ cc (rw (p, q, r) at h)
      | inr r ↦ elim (Bool-cases (t == tag shareout)) [
        | inl u ↦ cc (rw (p, q, r, u) at h)
        | inr u ↦ rw (p, q, r, u) (omega int_laws)
      ]
    ]
  ]
]

abbrev pub is_head : Account → Bool
is_head a = in_kinds head_kinds a.kind

-- What the book and the two names must be.
pub record CanClose (b : Book) (res own : Text) (o : Account) : Type 0 where
  pub unique : UniqueNames b.accounts
  pub res_new : has_account res b.accounts ≡ false
  pub owner_in : In o b.accounts
  pub owner_name : o.name ≡ own
  pub owner_kind : is_head o ≡ false

absent-differs :
    (n : Text) (a : Account) {accounts : List Account}
    → has_account n accounts ≡ false
    → In a accounts
    → same n a.name ≡ false
absent-differs n a {accounts} h i = elim (Bool-cases (same n a.name)) [
  | inl e ↦
      let k : has_account n accounts ≡ true = rw (same→eq n a.name e) (In-has_account a i) in cc
  | inr e ↦ e
]

flip : (a d : Account) → same d.name a.name ≡ true → same a.name d.name ≡ true
flip a d e = eq→same a.name d.name (sym (same→eq d.name a.name e))

-- Accounts of one name are one account.
pub In-unique :
    (a d : Account) {accounts : List Account}
    → UniqueNames accounts
    → In a accounts
    → In d accounts
    → same d.name a.name ≡ true
    → a ≡ d
In-unique a d u (here rest) (here rest') e = refl
In-unique a d u (here rest) (there x {rest = r} j) e = cc (later-differs d a r u.0 j, flip a d e)
In-unique a d u (there x {rest = r} i) (here rest) e = cc (later-differs a d r u.0 i)
In-unique a d u (there x i) (there y j) e = In-unique a d u.1 i j e

abbrev pub drawn_total : Kind → Book → ℤ
drawn_total k b = sum_by (λ a. a.closing) (open_heads k b.accounts)

-- The five entries on a name, by the four kinds of head and by whether it is the result or the owner.
abbrev spread : Book → Bool → Bool → ℤ → ℤ → ℤ → ℤ → ℤ
spread b is_res is_own i e d s =
    i
    +ℤ e
    +ℤ (d +ℤ s)
    +ℤ (if is_res
        then pos 0 -ℤ income_total b.accounts +ℤ expense_total b.accounts +ℤ result_of b.accounts
        else pos 0)
    +ℤ (if is_own
        then drawn_total drawings b +ℤ drawn_total shareout b -ℤ result_of b.accounts
        else pos 0)

module _ (b : Book) (res own : Text) where
  abbrev kind_on : Text → Kind → ℤ
  kind_on n k = amount_on n (heads_at (λ a. neg a.closing) k b.accounts)

  total_on-spread :
      (n : Text)
      → total_on b res own n
        ≡ spread b
            (same res n)
            (same own n)
            (kind_on n income)
            (kind_on n expense)
            (kind_on n drawings)
            (kind_on n shareout)
  total_on-spread n =
      rw
        (sum_by-append (λ (l : Line). if same l.0 n then l.1 else pos 0)
          (heads_at (λ a. neg a.closing) income b.accounts))
        (elim (Bool-cases (same res n)) [
          | inl p ↦ elim (Bool-cases (same own n)) [
            | inl q ↦ rw (p, q) (omega int_laws)
            | inr q ↦ rw (p, q) (omega int_laws)
          ]
          | inr p ↦ elim (Bool-cases (same own n)) [
            | inl q ↦ rw (p, q) (omega int_laws)
            | inr q ↦ rw (p, q) (omega int_laws)
          ]
        ])

  spread-res : (is_res : Bool) → spread b is_res false (pos 0) (pos 0) (pos 0) (pos 0) ≡ pos 0
  spread-res true = omega int_laws
  spread-res false = omega int_laws

module _ (b : Book) (res own : Text) (o : Account) (c : CanClose b res own o) where
  owner_here : has_account own b.accounts ≡ true
  owner_here = rw (← c.owner_name) (In-has_account o c.owner_in)

  -- On a name that is no account's, the result account's too, the entries come to nothing.
  pub total_on-absent : (n : Text) → has_account n b.accounts ≡ false → total_on b res own n ≡ pos 0
  total_on-absent n h =
      let not_own : same own n ≡ false = (elim (Bool-cases (same own n)) [
        | inl e ↦ let k : has_account n b.accounts ≡ true = rw (← same→eq own n e) owner_here in cc
        | inr e ↦ e
      ]) in
      rw
        (
          total_on-spread b res own n,
          not_own,
          heads-absent (λ a. neg a.closing) neg-nil income n b.accounts h,
          heads-absent (λ a. neg a.closing) neg-nil expense n b.accounts h,
          heads-absent (λ a. neg a.closing) neg-nil drawings n b.accounts h,
          heads-absent (λ a. neg a.closing) neg-nil shareout n b.accounts h,
        )
        (spread-res b res own (same res n))

  on_account :
      (a : Account)
      → In a b.accounts
      → total_on b res own a.name
        ≡ spread b false
            (same own a.name)
            (if_kind income a)
            (if_kind expense a)
            (if_kind drawings a)
            (if_kind shareout a)
  on_account a i = rw (
    total_on-spread b res own a.name,
    absent-differs res a c.res_new i,
    heads-amount (λ a. neg a.closing) neg-nil income a b.accounts c.unique i,
    heads-amount (λ a. neg a.closing) neg-nil expense a b.accounts c.unique i,
    heads-amount (λ a. neg a.closing) neg-nil drawings a b.accounts c.unique i,
    heads-amount (λ a. neg a.closing) neg-nil shareout a b.accounts c.unique i,
  )

  head-differs : (a : Account) → In a b.accounts → is_head a ≡ true → same own a.name ≡ false
  head-differs a i h = elim (Bool-cases (same own a.name)) [
    | inl e ↦
        let p : same o.name a.name ≡ true = rw c.owner_name e in
        let q : a ≡ o = In-unique a o c.unique i c.owner_in p in
        let r : is_head a ≡ false = rw q c.owner_kind in cc
    | inr e ↦ e
  ]

  -- A head loses its closing balance.
  pub total_on-head :
      (a : Account) → In a b.accounts → is_head a ≡ true → total_on b res own a.name ≡ neg a.closing
  total_on-head a i h =
      rw (on_account a i, head-differs a i h)
        (+ℤ-zero _ ∙ +ℤ-zero _ ∙ four_at_head (tag a.kind) (neg a.closing) h)

  -- Own money takes the result, and gives what was drawn and shared out.
  pub total_on-owner :
      total_on b res own o.name
      ≡ drawn_total drawings b +ℤ drawn_total shareout b -ℤ result_of b.accounts
  total_on-owner =
      rw (on_account o c.owner_in, eq→same own o.name (sym c.owner_name))
        (ap
            (λ x.
              x
              +ℤ pos 0
              +ℤ (drawn_total drawings b +ℤ drawn_total shareout b -ℤ result_of b.accounts))
            (four_at_other (tag o.kind) (neg o.closing) c.owner_kind)
          ∙ omega int_laws)

  -- Every other account is left alone.
  pub total_on-other :
      (a : Account)
      → In a b.accounts
      → is_head a ≡ false
      → same own a.name ≡ false
      → total_on b res own a.name ≡ pos 0
  total_on-other a i h d =
      rw (on_account a i, d) (+ℤ-zero _ ∙ +ℤ-zero _ ∙ four_at_other (tag a.kind) (neg a.closing) h)
