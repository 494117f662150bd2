-- ===== src/Report/Receipts/Posted.antt =====
-- What `post` does to the money accounts of a book: their balance moves by the lines on money.
use rukka_folio.Prelude.{
  if◌then◌else◌, when, ◌≡◌, refl, sym, ◌∙◌, true, false, Bool, Bool-cases, inl, inr, List, [], ◌∷◌,
  map, ℤ, pos, ◌+ℤ◌, int_laws, sum_by, Text, same, Option, none, some,
}
use rukka_folio.Kinds.{Kind, is_money_kind}
use rukka_folio.Fault.{ok, >>=-eq-ok}
use rukka_folio.Book.{Account, Book, Line, Voucher, find_account}
use rukka_folio.Book.Changed.{Changed, here, there, change-Changed, ok-injective}
use rukka_folio.Entry.{kind_passes}
use rukka_folio.Posting.{post_row, post_lines, post_vouchers, post, reset, close_off, particulars}
use rukka_folio.Posting.Parts.{post-parts, sum_by-map, sum-post}

-- The balances of the accounts of some kinds.
abbrev of_kinds : (Kind → Bool) → (Account → ℤ) → List Account → ℤ
of_kinds p f = sum_by (λ a. when (p a.kind) (f a))

-- The two lists have the same kinds under the same names.
abbrev pub SameKinds : List Account → List Account → Type 0
SameKinds before after =
    (q : Kind → Bool) (m : Text) → kind_passes after q m ≡ kind_passes before q m

cons_if :
    (b : Bool) (q : Kind → Bool) (a : Account) (o : Option Account)
    → elim (if b then some a else o) [ none ↦ false | some x ↦ q x.kind ]
      ≡ (if b then q a.kind else elim o [ none ↦ false | some x ↦ q x.kind ])
cons_if true q a o = refl
cons_if false q a o = refl

pub kind_passes-cons :
    (a : Account) (rest : List Account) (q : Kind → Bool) (m : Text)
    → kind_passes (a ∷ rest) q m ≡ (if same a.name m then q a.kind else kind_passes rest q m)
unfolding kind_passes find_account
kind_passes-cons a rest q m = cons_if (same a.name m) q a (find_account m rest)

module _ (n : Text) (f : Account → Account) (kind : (a : Account) → (f a).kind ≡ a.kind)
    (name : (a : Account) → (f a).name ≡ a.name) where
  SameKinds-Changed :
      {before after : List Account} → Changed n f before after → SameKinds before after
  SameKinds-Changed (here a rest e) q m =
      kind_passes-cons (f a) rest q m ∙ rw (name a, kind a) (sym (kind_passes-cons a rest q m))
  SameKinds-Changed (there a {rest = rest} {after = after} e c) q m =
      kind_passes-cons a after q m
      ∙ rw (SameKinds-Changed c q m) (sym (kind_passes-cons a rest q m))

  of_kinds-Changed :
      (p : Kind → Bool) (x : ℤ) {before after : List Account}
      → ((a : Account) → (f a).bal ≡ a.bal +ℤ x)
      → Changed n f before after
      → of_kinds p (λ a. a.bal) after
        ≡ of_kinds p (λ a. a.bal) before +ℤ when (kind_passes before p n) x
  of_kinds-Changed p x step (here a rest e) =
      let passes : kind_passes (a ∷ rest) p n ≡ p a.kind = kind_passes-cons a rest p n ∙ rw e in
      elim (Bool-cases (p a.kind)) [
        | inl k ↦ rw (passes, kind a, k, step a) (omega int_laws)
        | inr k ↦ rw (passes, kind a, k) (omega int_laws)
      ]
  of_kinds-Changed p x step (there a {rest = rest} e c) =
      let passes : kind_passes (a ∷ rest) p n ≡ kind_passes rest p n =
        kind_passes-cons a rest p n ∙ rw e in
      rw (passes, of_kinds-Changed p x step c) (omega int_laws)

-- The money that the lines move, by the kinds of the accounts.
abbrev pub moved : List Account → List Line → ℤ
moved accounts = sum_by (λ x. when (kind_passes accounts is_money_kind x.0) x.1)

pub moved-SameKinds :
    (before after : List Account)
    → SameKinds before after
    → (ls : List Line) → moved after ls ≡ moved before ls
moved-SameKinds before after e [] = refl
moved-SameKinds before after e (x ∷ xs) =
    rw (e is_money_kind x.0, moved-SameKinds before after e xs)

abbrev bal_of_money : List Account → ℤ
bal_of_money = of_kinds is_money_kind (λ a. a.bal)

row_kind : (w : Voucher) (part : Text) (x : ℤ) (a : Account) → (post_row w part x a).kind ≡ a.kind
unfolding post_row
row_kind w part x a = refl

row_name : (w : Voucher) (part : Text) (x : ℤ) (a : Account) → (post_row w part x a).name ≡ a.name
unfolding post_row
row_name w part x a = refl

row_bal : (w : Voucher) (part : Text) (x : ℤ) (a : Account) → (post_row w part x a).bal ≡ a.bal +ℤ x
unfolding post_row
row_bal w part x a = refl

-- One entry, then all of them.
post_lines-moved :
    (w : Voucher) (ls : List Line) (before after : List Account)
    → post_lines w ls before ≡ ok after
    → (bal_of_money after ≡ bal_of_money before +ℤ moved before ls) × SameKinds before after
unfolding post_lines
post_lines-moved w [] before after h = rw (← ok-injective h) (omega int_laws, λ q m. refl)
post_lines-moved w (l ∷ ls) before after h =
    let (mid, p, q) = >>=-eq-ok _ _ h in
    let f = post_row w (particulars before w l) l.1 in
    let c = change-Changed l.0 f before mid p in
    let kinds =
      SameKinds-Changed l.0 f (row_kind w (particulars before w l) l.1)
        (row_name w (particulars before w l) l.1) c in
    let first =
      of_kinds-Changed l.0 f (row_kind w (particulars before w l) l.1)
        (row_name w (particulars before w l) l.1) is_money_kind l.1
        (row_bal w (particulars before w l) l.1) c in
    let (rest, more) = post_lines-moved w ls mid after q in
    (
      omega (int_laws, rest, first, moved-SameKinds before mid kinds ls),
      λ q m. more q m ∙ kinds q m,
    )

moved_all :
    (before mid : List Account)
    → SameKinds before mid
    → (ws : List Voucher)
    → sum_by (λ w. moved mid w.lines) ws ≡ sum_by (λ w. moved before w.lines) ws
moved_all before mid e [] = refl
moved_all before mid e (w ∷ ws) =
    rw (moved-SameKinds before mid e w.lines, moved_all before mid e ws)

post_vouchers-moved :
    (ws : List Voucher) (before after : List Account)
    → post_vouchers ws before ≡ ok after
    → (bal_of_money after ≡ bal_of_money before +ℤ sum_by (λ w. moved before w.lines) ws)
      × SameKinds before after
unfolding post_vouchers
post_vouchers-moved [] before after h = rw (← ok-injective h) (omega int_laws, λ q m. refl)
post_vouchers-moved (w ∷ ws) before after h =
    let (mid, p, q) = >>=-eq-ok _ _ h in
    let (first, kinds) = post_lines-moved w w.lines before mid p in
    let (rest, more) = post_vouchers-moved ws mid after q in
    (omega (int_laws, rest, first, moved_all before mid kinds ws), λ q m. more q m ∙ kinds q m)

map-kinds :
    (f : Account → Account) (kind : (a : Account) → (f a).kind ≡ a.kind)
    (name : (a : Account) → (f a).name ≡ a.name) (accounts : List Account)
    → SameKinds accounts (map f accounts)
unfolding kind_passes find_account
map-kinds f kind name [] q m = refl
map-kinds f kind name (a ∷ rest) q m =
    kind_passes-cons (f a) (map f rest) q m
    ∙ rw (name a, kind a, map-kinds f kind name rest q m) (sym (kind_passes-cons a rest q m))

zeros : (ws : List Voucher) → sum_by (λ w. sum_by (λ (l : Line). pos 0) w.lines) ws ≡ pos 0
zeros [] = refl
zeros (w ∷ ws) = rw (none_of w.lines, zeros ws) (omega int_laws)
  where
    none_of : (ls : List Line) → sum_by (λ (l : Line). pos 0) ls ≡ pos 0
    none_of [] = refl
    none_of (l ∷ ls) = rw (none_of ls) (omega int_laws)

money_opening : (a : Account) → ℤ
money_opening a = when (is_money_kind a.kind) a.opening

keeps_opening :
    (w : Voucher) (part : Text) (x : ℤ) (a : Account)
    → money_opening (post_row w part x a) ≡ money_opening a +ℤ pos 0
unfolding post_row money_opening
keeps_opening w part x a = omega int_laws

-- A book that `post` returned: its money accounts closed with what they opened with and what the
-- entries moved, and the kinds stand where they stood.
pub post-moved :
    (b b' : Book)
    → post b ≡ ok b'
    → (sum_by (λ a. when (is_money_kind a.kind) a.closing) b'.accounts
        ≡ sum_by (λ a. when (is_money_kind a.kind) a.opening) b'.accounts
          +ℤ sum_by (λ w. moved b.accounts w.lines) b.vouchers)
      × (b'.vouchers ≡ b.vouchers)
      × SameKinds b.accounts b'.accounts
unfolding money_opening
post-moved b b' h =
    let (after, p, e) = post-parts b b' h in
    let start = map reset b.accounts in
    let (moves, kinds) = post_vouchers-moved b.vouchers start after p in
    let reset_kinds = map-kinds reset (λ a. refl) (λ a. refl) b.accounts in
    let end_kinds = map-kinds close_off (λ a. refl) (λ a. refl) after in
    let closing =
      sum_by-map (λ a. when (is_money_kind a.kind) a.closing)
        (λ a. when (is_money_kind a.kind) a.bal) close_off (λ a. refl) after in
    let opening_end = sum_by-map money_opening money_opening close_off (λ a. refl) after in
    let opening_start =
      sum_by-map (λ a. when (is_money_kind a.kind) a.bal) money_opening reset (λ a. refl)
        b.accounts in
    let openings =
      sum-post money_opening money_opening (λ w x. pos 0) keeps_opening (λ a. refl) b after p in
    rw e (
      omega (
        int_laws,
        closing,
        opening_end,
        opening_start,
        openings,
        zeros b.vouchers,
        moves,
        moved_all b.accounts start reset_kinds b.vouchers,
      ),
      refl,
      λ q m. end_kinds q m ∙ kinds q m ∙ reset_kinds q m,
    )
