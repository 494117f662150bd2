-- ===== src/Check/Book/Swapped.antt =====
-- The lines of an entry may be taken in any order: they stand on different accounts.
use rukka_folio.Prelude.{
  ◌≡◌, refl, sym, ◌∙◌, ap, true, false, not, List, [], ◌∷◌, ◌++◌, ℤ, neg, int_laws, is_pos, is_neg,
  keep, map, Text, same, same_refl, same→eq, All, arith, Bool-cases, inl, inr, mem, pos, ◌≢◌,
  and-left, and-right,
}
use rukka_folio.Fault.{Result, ok, err, ◌>>=◌, key_error}
use rukka_folio.Book.{Line, Voucher, dr_lines, cr_lines}
use rukka_folio.Entry.{distinct, names_of}
use rukka_folio.Check.Book.{Posted, Read, Head, append_post, take_lines}

after_cons :
    (h : Head) (r : Result (List Head)) (f g : List Head → Result (List Head))
    → ((x : List Head) → g (h ∷ x) ≡ (f x >>= λ y. ok (h ∷ y)))
    → ((r >>= λ x. ok (h ∷ x)) >>= g) ≡ ((r >>= f) >>= λ y. ok (h ∷ y))
after_cons h (err e) f g k = refl
after_cons h (ok x) f g k = k x

module _ (n m : Text) (p q : Posted) (apart : same n m ≡ false) where
  not_both : (t : Text) → same t n ≡ true → same t m ≡ true → ⊥
  not_both t a b =
      let e : n ≡ m = sym (same→eq t n a) ∙ same→eq t m b in
      let f : same n m ≡ true = ap (same n) (sym e) ∙ same_refl n in cc

  passes :
      (k : Text) (o : Posted) (h : Head) (x : List Head)
      → same h.name k ≡ false
      → append_post k o (h ∷ x) ≡ (append_post k o x >>= λ y. ok (h ∷ y))
  unfolding append_post
  passes k o h x e = rw (e) refl

  hits :
      (k : Text) (o : Posted) (h : Head) (x : List Head)
      → same h.name k ≡ true
      → append_post k o (h ∷ x) ≡ ok (record h { posts = h.posts ++ (o ∷ []) } ∷ x)
  unfolding append_post
  hits k o h x e = rw (e) refl

  first_hit :
      (k : Text) (o : Posted) (h : Head) (r : Result (List Head))
      → same h.name k ≡ true
      → ((r >>= λ x. ok (h ∷ x)) >>= append_post k o)
        ≡ (r >>= λ x. ok (record h { posts = h.posts ++ (o ∷ []) } ∷ x))
  first_hit k o h (err e) t = refl
  first_hit k o h (ok x) t = hits k o h x t

  no_head :
      (k : Text) (o : Posted) (j : Text) (u : Posted)
      → (append_post k o [] >>= append_post j u) ≡ err key_error
  unfolding append_post
  no_head k o j u = refl

  pub append_post_swap :
      (heads : List Head)
      → (append_post n p heads >>= append_post m q) ≡ (append_post m q heads >>= append_post n p)
  append_post_swap [] = no_head n p m q ∙ sym (no_head m q n p)
  append_post_swap (h ∷ rest) = elim (Bool-cases (same h.name n)) [
    | inl a ↦ elim (Bool-cases (same h.name m)) [
      | inl b ↦ absurd (not_both h.name a b)
      | inr b ↦
          rw (hits n p h rest a, passes m q h rest b, first_hit n p h (append_post m q rest) a)
            (passes m q (record h { posts = h.posts ++ (p ∷ []) }) rest b)
    ]
    | inr a ↦ elim (Bool-cases (same h.name m)) [
      | inl b ↦
          rw (hits m q h rest b, passes n p h rest a, first_hit m q h (append_post n p rest) b)
            (sym (passes n p (record h { posts = h.posts ++ (q ∷ []) }) rest a))
      | inr b ↦
          rw (passes n p h rest a, passes m q h rest b)
            (after_cons h (append_post n p rest) (append_post m q) (append_post m q)
                (λ x. passes m q h x b)
              ∙ (ap (λ r. r >>= λ y. ok (h ∷ y)) (append_post_swap rest)
                  ∙ sym (
                      after_cons h (append_post m q rest) (append_post n p) (append_post n p)
                        (λ x. passes n p h x a))))
    ]
  ]

-- `n` is not the account of any of the lines.
abbrev pub Apart : Text → List Line → Type 0
Apart n = All (λ l. same l.0 n ≡ false)

abbrev posted_line : Read → Line → Posted
posted_line w l = record { date = w.date; vid = w.vid; amount = l.1 }

bind_assoc :
    (r : Result (List Head)) (f g : List Head → Result (List Head))
    → ((r >>= f) >>= g) ≡ (r >>= λ x. f x >>= g)
bind_assoc (err e) f g = refl
bind_assoc (ok x) f g = refl

pub bind_ext :
    (r : Result (List Head)) (f g : List Head → Result (List Head))
    → ((x : List Head) → f x ≡ g x)
    → (r >>= f) ≡ (r >>= g)
bind_ext (err e) f g h = refl
bind_ext (ok x) f g h = h x

-- A line on an account of its own may be taken first.
take_lines_sooner :
    (w : Read) (l : Line) (xs ys : List Line)
    → Apart l.0 xs
    → (heads : List Head)
    → take_lines w (xs ++ (l ∷ ys)) heads ≡ take_lines w (l ∷ (xs ++ ys)) heads
unfolding take_lines
take_lines_sooner w l [] ys h heads = refl
take_lines_sooner w l (x ∷ xs) ys h heads =
    bind_ext (append_post x.0 (posted_line w x) heads) _ _ (take_lines_sooner w l xs ys h.1)
    ∙ (sym (
          bind_assoc (append_post x.0 (posted_line w x) heads) (append_post l.0 (posted_line w l))
            (take_lines w (xs ++ ys)))
        ∙ (ap (λ r. r >>= take_lines w (xs ++ ys))
              (append_post_swap x.0 l.0 (posted_line w x) (posted_line w l) h.0 heads)
            ∙ bind_assoc (append_post l.0 (posted_line w l) heads)
                (append_post x.0 (posted_line w x)) (take_lines w (xs ++ ys))))

-- The debit lines of a list, and its credit lines.
abbrev pub debits : List Line → List Line
debits = keep (λ l. is_pos l.1)

abbrev pub credits : List Line → List Line
credits = keep (λ l. is_neg l.1)

-- The names of the lines are all different, and no line is nil.
abbrev pub Once : List Line → Type 0
Once [] = Unit {0}
Once (l ∷ ls) = Apart l.0 ls × (l.1 ≢ pos 0) × Once ls

Apart-debits : (n : Text) (ls : List Line) → Apart n ls → Apart n (debits ls)
Apart-debits n [] h = tt
Apart-debits n (l ∷ ls) h = elim (Bool-cases (is_pos l.1)) [
  | inl e ↦ rw e (h.0, Apart-debits n ls h.1)
  | inr e ↦ rw e (Apart-debits n ls h.1)
]

credit : (a : ℤ) → a ≢ pos 0 → is_pos a ≡ false → is_neg a ≡ true
credit a h e = ground arith

debit : (a : ℤ) → is_pos a ≡ true → is_neg a ≡ false
debit a e = ground arith

-- The debit lines first and then the credit lines, or as they stand: the accounts end the same.
pub take_lines-sides :
    (w : Read) (ls : List Line)
    → Once ls
    → (heads : List Head) → take_lines w (debits ls ++ credits ls) heads ≡ take_lines w ls heads
unfolding take_lines
take_lines-sides w [] h heads = refl
take_lines-sides w (l ∷ ls) (apart, nil, once) heads = elim (Bool-cases (is_pos l.1)) [
  | inl e ↦
      rw (e, debit l.1 e)
        (bind_ext (append_post l.0 (posted_line w l) heads) _ _ (take_lines-sides w ls once))
  | inr e ↦
      rw (e, credit l.1 nil e)
        (take_lines_sooner w l (debits ls) (credits ls) (Apart-debits l.0 ls apart) heads
          ∙ bind_ext (append_post l.0 (posted_line w l) heads) _ _ (take_lines-sides w ls once))
]

neg-neg : (a : ℤ) → neg (neg a) ≡ a
neg-neg a = omega int_laws

abbrev turn : Line → Line
turn l = (l.0, neg l.1)

turned : (ls : List Line) → map turn (map turn ls) ≡ ls
turned [] = refl
turned (l ∷ ls) = rw (neg-neg l.1, turned ls) refl

-- The lines that the Day Book prints are the debit lines and the credit lines of the entry.
pub printed_lines :
    (w : Voucher)
    → dr_lines w ++ map (λ l. (l.0, neg l.1)) (cr_lines w) ≡ debits w.lines ++ credits w.lines
unfolding dr_lines cr_lines
printed_lines w = rw (turned (credits w.lines)) refl

Apart-mem : (n : Text) (ls : List Line) → not (mem n (names_of ls)) ≡ true → Apart n ls
unfolding mem
Apart-mem n [] h = tt
Apart-mem n (l ∷ ls) h = elim (Bool-cases (same l.0 n)) [
  | inl e ↦ let g = rw e at h in cc
  | inr e ↦ (e, Apart-mem n ls (rw e at h))
]

-- The lines of an entry that was validated.
pub Once-distinct :
    (ls : List Line) → distinct (names_of ls) ≡ true → All (λ l. l.1 ≢ pos 0) ls → Once ls
unfolding distinct
Once-distinct [] h k = tt
Once-distinct (l ∷ ls) h k = (
  Apart-mem l.0 ls (and-left _ _ h),
  k.0,
  Once-distinct ls (and-right (not (mem l.0 (names_of ls))) _ h) k.1,
)
