-- ===== src/Close/Done.antt =====
-- `post_close_balances` returns for a book with no partners: the result account and every head are
-- at nil, and own money has taken the result.
use rukka_folio.Prelude.{
  All, ◌≡◌, refl, sym, ap, ◌∙◌, Bool, true, false, Bool-cases, inl, inr, List, [], ◌∷◌,
  if◌then◌else◌, ℤ, pos, ◌+ℤ◌, ◌-ℤ◌, +ℤ-zero, int_laws, is_nil, every, Text, same, same→eq, eq→same,
  same_refl, arith, some,
}
use rukka_folio.Kinds.{drawings, shareout}
use rukka_folio.Fault.{ok}
use rukka_folio.Book.{Account, Book, Line, has_account}
use rukka_folio.Close.{CloseEntry, close_entries, result_name, owner_account, result_of}
use rukka_folio.Close.Balances.{
  Balances, has_name, balance_of, add_to, settle_line, settle_lines, settle, closings, head_closed,
  post_close_balances,
}
use rukka_folio.Close.Effect.{entries_on, settle_effect, has_name-add_to}
use rukka_folio.Close.Lines.{UniqueNames, later-differs, In, here, there, In-has_account}
use rukka_folio.Close.Heads.{close_all, close_all_returns, close_all-amounts, total_on}
use rukka_folio.Close.Nil.{
  CanClose, is_head, total_on-absent, total_on-head, total_on-owner, total_on-other, drawn_total,
}

-- The result accounts' names: each once, and none of the book's.
abbrev Fresh : Balances → Balances → Type 0
Fresh bal [] = Unit
Fresh bal ((n, x) ∷ ps) = (has_name n bal ≡ false) × (has_name n ps ≡ false) × Fresh bal ps

has_name-add_to_any :
    (n m : Text) (a : ℤ) (ps : Balances)
    → same m n ≡ false
    → has_name n (add_to m a ps) ≡ has_name n ps
unfolding has_name add_to
has_name-add_to_any n m a [] h = ground arith
has_name-add_to_any n m a ((j, x) ∷ ps) h = ground (arith, has_name-add_to_any n m a ps h)

add_to-Fresh :
    (m : Text) (a : ℤ) (bal ps : Balances)
    → has_name m bal ≡ false
    → Fresh bal ps
    → Fresh bal (add_to m a ps)
unfolding has_name add_to
add_to-Fresh m a bal [] h f = (h, refl, tt)
add_to-Fresh m a bal ((j, x) ∷ ps) h f = elim (Bool-cases (same j m)) [
  | inl e ↦ rw e f
  | inr e ↦
      rw e (f.0, has_name-add_to_any j m a ps (swapped j m e) ∙ f.1, add_to-Fresh m a bal ps h f.2)
]
  where
    swapped : (p q : Text) → same p q ≡ false → same q p ≡ false
    swapped p q h = ground (arith, same→eq q p, eq→same p q)

Fresh-same :
    (bal bal' ps : Balances)
    → ((n : Text) → has_name n bal' ≡ has_name n bal)
    → Fresh bal ps
    → Fresh bal' ps
Fresh-same bal bal' [] h f = tt
Fresh-same bal bal' ((n, x) ∷ ps) h f = (h n ∙ f.0, f.1, Fresh-same bal bal' ps h f.2)

settle_line-Fresh :
    (l : Line) (bal ps : Balances)
    → Fresh bal ps
    → Fresh (settle_line l (bal, ps)).0 (settle_line l (bal, ps)).1
unfolding settle_line
settle_line-Fresh l bal ps f = elim (Bool-cases (has_name l.0 bal)) [
  | inl e ↦ rw e (Fresh-same bal (add_to l.0 l.1 bal) ps (λ n. has_name-add_to n l.0 l.1 bal e) f)
  | inr e ↦ rw e (add_to-Fresh l.0 l.1 bal ps e f)
]

settle_lines-Fresh :
    (ls : List Line) (bal ps : Balances)
    → Fresh bal ps
    → Fresh (settle_lines ls (bal, ps)).0 (settle_lines ls (bal, ps)).1
unfolding settle_lines
settle_lines-Fresh [] bal ps f = f
settle_lines-Fresh (l ∷ ls) bal ps f =
    settle_lines-Fresh ls (settle_line l (bal, ps)).0 (settle_line l (bal, ps)).1
      (settle_line-Fresh l bal ps f)

settle-Fresh :
    (es : List CloseEntry) (bal ps : Balances)
    → Fresh bal ps
    → Fresh (settle es (bal, ps)).0 (settle es (bal, ps)).1
unfolding settle
settle-Fresh [] bal ps f = f
settle-Fresh (e ∷ es) bal ps f =
    settle-Fresh es (settle_lines e.lines (bal, ps)).0 (settle_lines e.lines (bal, ps)).1
      (settle_lines-Fresh e.lines bal ps f)

balance_of-absent : (n : Text) (ps : Balances) → has_name n ps ≡ false → balance_of n ps ≡ pos 0
unfolding has_name balance_of
balance_of-absent n [] h = refl
balance_of-absent n ((j, x) ∷ ps) h = ground (arith, balance_of-absent n ps)

later-nil :
    (n : Text) (x : ℤ) (bal ps : Balances)
    → has_name n ps ≡ false
    → ((m : Text) → has_name m bal ≡ false → balance_of m ((n, x) ∷ ps) ≡ pos 0)
    → (m : Text) → has_name m bal ≡ false
    → balance_of m ps ≡ pos 0
unfolding balance_of
later-nil n x bal ps f h m k = elim (Bool-cases (same n m)) [
  | inl e ↦ rw (← same→eq n m e) (balance_of-absent n ps f)
  | inr e ↦ let q = h m k in rw e at q
]

every-nil :
    (bal ps : Balances)
    → Fresh bal ps
    → ((n : Text) → has_name n bal ≡ false → balance_of n ps ≡ pos 0)
    → every (λ l. is_nil l.1) ps ≡ true
unfolding balance_of
every-nil bal [] f h = refl
every-nil bal ((n, x) ∷ ps) f h =
    let e : x ≡ pos 0 = rw (same_refl n) at (h n f.0) in
    rw (e, every-nil bal ps f.2 (later-nil n x bal ps f.1 h))

has_name-closings :
    (n : Text) (accounts : List Account) → has_name n (closings accounts) ≡ has_account n accounts
unfolding has_name has_account
has_name-closings n [] = refl
has_name-closings n (a ∷ rest) = rw (has_name-closings n rest)

balance_of-closings :
    (a : Account) (accounts : List Account)
    → UniqueNames accounts
    → In a accounts
    → balance_of a.name (closings accounts) ≡ a.closing
unfolding balance_of
balance_of-closings a accounts u (here rest) = rw (same_refl a.name)
balance_of-closings a accounts u (there d {rest = r} i) =
    rw (later-differs a d r u.0 i) (balance_of-closings a r u.1 i)

-- What the year close leaves on an account.
abbrev pub carried_to : Book → Text → Account → ℤ
carried_to b own a =
    if is_head a
    then pos 0
    else if same own a.name
    then a.closing +ℤ (drawn_total drawings b +ℤ drawn_total shareout b -ℤ result_of b.accounts)
    else a.closing

module _ (b : Book) (res own : Text) (o : Account) (c : CanClose b res own o) (es : List CloseEntry)
    (made : close_all b res own ≡ ok es) where
  abbrev done : Balances × Balances
  done = settle es (closings b.accounts, [])

  -- The balance of an account of the book, after the entries.
  after_close :
      (a : Account)
      → In a b.accounts
      → (x : ℤ) → entries_on a.name es ≡ x
      → balance_of a.name done.0 ≡ a.closing +ℤ x
  after_close a i x h =
      let (e, k) = settle_effect a.name es (closings b.accounts) [] in
      let known : has_name a.name (closings b.accounts) ≡ true =
        has_name-closings a.name b.accounts ∙ In-has_account a i in
      let e' = rw (k, known, h, balance_of-closings a b.accounts c.unique i) at e in e'

  pseudo_name-nil : (n : Text) → has_name n done.0 ≡ false → balance_of n done.1 ≡ pos 0
  unfolding balance_of
  pseudo_name-nil n k =
      let (e, k') = settle_effect n es (closings b.accounts) [] in
      let new : has_name n (closings b.accounts) ≡ false = sym k' ∙ k in
      let absent : has_account n b.accounts ≡ false = sym (has_name-closings n b.accounts) ∙ new in
      let x : entries_on n es ≡ pos 0 =
        close_all-amounts b res own n es made ∙ total_on-absent b res own o c n absent in
      let e' = rw (k, new, x) at e in e' ∙ +ℤ-zero _

  pseudo-nil : every (λ l. is_nil l.1) done.1 ≡ true
  pseudo-nil = every-nil done.0 done.1 (settle-Fresh es (closings b.accounts) [] tt) pseudo_name-nil

  balance_of-done : (a : Account) → In a b.accounts → balance_of a.name done.0 ≡ carried_to b own a
  balance_of-done a i = elim (Bool-cases (is_head a)) [
    | inl h ↦
        rw
          (
            h,
            after_close a i _
                (close_all-amounts b res own a.name es made ∙ total_on-head b res own o c a i h),
          )
          (omega int_laws)
    | inr h ↦ elim (Bool-cases (same own a.name)) [
      | inl k ↦
          let p : o.name ≡ a.name = c.owner_name ∙ same→eq own a.name k in
          rw (
            h,
            k,
            after_close a i _ (
                close_all-amounts b res own a.name es made
                ∙ ap (total_on b res own) (sym p)
                ∙ total_on-owner b res own o c),
          )
      | inr k ↦
          rw
            (
              h,
              k,
              after_close a i _ (
                  close_all-amounts b res own a.name es made
                  ∙ total_on-other b res own o c a i h k),
            )
            (+ℤ-zero _)
    ]
  ]

  heads-nil : (a : Account) → In a b.accounts → head_closed done.0 a ≡ true
  unfolding head_closed
  heads-nil a i = elim (Bool-cases (is_head a)) [
    | inl h ↦ rw (h, balance_of-done a i, h)
    | inr h ↦ rw h
  ]

every-In :
    (p : Account → Bool) (accounts : List Account)
    → ((a : Account) → In a accounts → p a ≡ true)
    → every p accounts ≡ true
every-In p [] h = refl
every-In p (a ∷ rest) h = rw (h a (here rest), every-In p rest (λ x i. h x (there a i)))

close_entries-own :
    (b : Book) (own : Text) (es : List CloseEntry)
    → b.partners ≡ []
    → owner_account b.accounts ≡ some own
    → close_all b (result_name b.style) own ≡ ok es
    → close_entries b ≡ ok es
unfolding close_entries
close_entries-own b own es alone owner made = simp (alone, owner) made

All-In :
    (P : Account → Type 0) (accounts : List Account)
    → ((a : Account) → In a accounts → P a)
    → All P accounts
All-In P [] h = tt
All-In P (a ∷ rest) h = (h a (here rest), All-In P rest (λ x i. h x (there a i)))

-- In a book with no partners, whose accounts have distinct names, none of them the result
-- account's, and whose owner's account is no income, expense, drawings or share-out account,
-- `post_close_balances` passes both of its assertions. It leaves the income, expense, drawings and
-- share-out accounts at nil, puts the result, less what was drawn and shared out, on the credit
-- side of the owner's account, and leaves every other account as it closed.
pub post_close_balances-carried :
    (b : Book) (own : Text) (o : Account)
    → CanClose b (result_name b.style) own o
    → b.partners ≡ []
    → owner_account b.accounts ≡ some own
    → (bal : Balances) × (post_close_balances b ≡ ok bal)
      × All (λ a. balance_of a.name bal ≡ carried_to b own a) b.accounts
unfolding post_close_balances
post_close_balances-carried b own o c alone owner =
    let res = result_name b.style in
    let (es, made) = close_all_returns b res own in
    let closed = close_entries-own b own es alone owner made in
    (
      (settle es (closings b.accounts, [])).0,
      rw (
        closed,
        pseudo-nil b res own o c es made,
        every-In (head_closed (settle es (closings b.accounts, [])).0) b.accounts
            (heads-nil b res own o c es made),
      ),
      All-In _ b.accounts (balance_of-done b res own o c es made),
    )
