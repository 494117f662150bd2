-- ===== src/Check/Book/Agrees.antt =====
-- The checker's queries on the accounts that a reader sees are the book's queries.
use rukka_folio.Prelude.{
  ◌≡◌, refl, sym, ◌∙◌, Bool, true, false, ◌&&◌, List, [], ◌∷◌, ◌++◌, ℤ, pos, neg, ◌-ℤ◌, int_laws,
  sum_by, dr_of, cr_of, is_pos, is_neg, keep, map, Text, same, All, arith, Bool-cases, inl, inr,
  leb,
}
use rukka_folio.Dates.{Date}
use rukka_folio.Fault.{ok, ◌>>=◌, or_key_error}
use rukka_folio.Book.{Account, Row, Book, find_account}
use rukka_folio.Entry.{validate_vouchers}
use rukka_folio.Book.Changed.{ok-injective}
use rukka_folio.Posting.{post, post_row, reset, close_off}
use rukka_folio.Posting.Ledger.{All-post_vouchers, All-map, All-All, dr-cr}
use rukka_folio.Posting.Parts.{post-parts}
use rukka_folio.Queries.{balance_on, balance_at, movement_on, movement}
use rukka_folio.Check.Book.{
  fill, Posted, Head, total_of, head_of, bal_on, bal_at, mov_on, mov, in_days,
}
use rukka_folio.Check.Book.Refined.{posted_of, head_from, read_of, fill-post}

total-keep :
    (d : Date) (rs : List Row)
    → total_of (keep (λ p. leb p.date d) (map posted_of rs))
      ≡ sum_by (λ r. r.dr -ℤ r.cr) (keep (λ r. leb r.date d) rs)
total-keep d [] = refl
total-keep d (r ∷ rs) = elim (Bool-cases (leb r.date d)) [
  | inl e ↦ rw (e, total-keep d rs) refl
  | inr e ↦ rw (e, total-keep d rs) refl
]

pub bal_on-balance_on : (d : Date) (a : Account) → bal_on d (head_from a) ≡ balance_on d a
unfolding bal_on balance_on
bal_on-balance_on d a = rw (total-keep d a.rows) refl

-- What is looked up under a name, on both sides.
looked_up {ℓ} :
    {X : Type ℓ} (f : Head → X) (g : Account → X) (n : Text) (accounts : List Account)
    → All (λ a. f (head_from a) ≡ g a) accounts
    → (do ok (f (← head_of n (map head_from accounts))))
      ≡ (do ok (g (← or_key_error (find_account n accounts))))
unfolding head_of find_account
looked_up f g n [] h = refl
looked_up f g n (a ∷ rest) h = elim (Bool-cases (same a.name n)) [
  | inl e ↦ rw (e, h.0) refl
  | inr e ↦ rw (e) (looked_up f g n rest h.1)
]

-- One side of a row is nil.
abbrev pub Sided : List Row → Type 0
Sided = All (λ r. (amt : ℤ) × (r.dr ≡ dr_of amt) × (r.cr ≡ cr_of amt))

Sided-append :
    (rs : List Row) (r : Row)
    → Sided rs
    → (amt : ℤ) → r.dr ≡ dr_of amt
    → r.cr ≡ cr_of amt
    → Sided (rs ++ (r ∷ []))
Sided-append [] r h amt d c = ((amt, d, c), tt)
Sided-append (q ∷ rs) r h amt d c = (h.0, Sided-append rs r h.1 amt d c)

pub post-Sided : (b b' : Book) → post b ≡ ok b' → All (λ a. Sided a.rows) b'.accounts
unfolding post_row
post-Sided b b' k =
    let (after, p, e) = post-parts b b' k in
    rw e (
      All-map (λ a. Sided a.rows) (λ a. Sided a.rows) close_off (λ a r. r) after
        (All-post_vouchers (λ a. Sided a.rows) (λ w. Unit {0})
          (λ w part amt a u s. Sided-append a.rows _ s amt refl refl) b.vouchers
          (map reset b.accounts) after (All-All _ (λ w. tt) b.vouchers) p
          (All-map (λ a. Unit {0}) (λ a. Sided a.rows) reset (λ a u. tt) b.accounts
            (All-All _ (λ a. tt) b.accounts))))

dr_all : (amt : ℤ) → is_pos amt ≡ true → amt ≡ dr_of amt
dr_all amt h = ground arith

dr_none : (amt : ℤ) → is_pos amt ≡ false → dr_of amt ≡ pos 0
dr_none amt h = ground arith

cr_all : (amt : ℤ) → is_neg amt ≡ true → neg amt ≡ cr_of amt
unfolding neg
cr_all amt h = ground arith

cr_none : (amt : ℤ) → is_neg amt ≡ false → cr_of amt ≡ pos 0
cr_none amt h = ground arith

module _ (t : Date → Bool) where
  pub debit_total :
      (rs : List Row)
      → Sided rs
      → total_of (keep (λ p. t p.date && is_pos p.amount) (map posted_of rs))
        ≡ sum_by (λ r. r.dr) (keep (λ r. t r.date) rs)
  debit_total [] h = refl
  debit_total (r ∷ rs) ((amt, d, c), h) = elim (Bool-cases (t r.date)) [
    | inl e ↦ elim (Bool-cases (is_pos amt)) [
      | inl k ↦ rw (e, d, c, dr-cr amt, k, debit_total rs h, ← dr_all amt k) refl
      | inr k ↦ rw (e, d, c, dr-cr amt, k, debit_total rs h, dr_none amt k) (omega int_laws)
    ]
    | inr e ↦ rw (e, debit_total rs h) refl
  ]

  pub credit_total :
      (rs : List Row)
      → Sided rs
      → sum_by (λ p. neg p.amount) (keep (λ p. t p.date && is_neg p.amount) (map posted_of rs))
        ≡ sum_by (λ r. r.cr) (keep (λ r. t r.date) rs)
  credit_total [] h = refl
  credit_total (r ∷ rs) ((amt, d, c), h) = elim (Bool-cases (t r.date)) [
    | inl e ↦ elim (Bool-cases (is_neg amt)) [
      | inl k ↦ rw (e, d, c, dr-cr amt, k, credit_total rs h, cr_all amt k) refl
      | inr k ↦ rw (e, d, c, dr-cr amt, k, credit_total rs h, cr_none amt k) (omega int_laws)
    ]
    | inr e ↦ rw (e, credit_total rs h) refl
  ]

neg_total : (ps : List Posted) → neg (total_of ps) ≡ sum_by (λ p. neg p.amount) ps
neg_total [] = omega int_laws
neg_total (p ∷ ps) = omega (int_laws, neg_total ps)

mov_on-movement_on :
    (s e : Date) (a : Account) → Sided a.rows → mov_on s e (head_from a) ≡ movement_on s e a
unfolding mov_on movement_on
mov_on-movement_on s e a h =
    rw
      (
        neg_total (keep (λ p. in_days s e p && is_neg p.amount) (map posted_of a.rows)),
        debit_total (λ x. leb s x && leb x e) a.rows h,
        credit_total (λ x. leb s x && leb x e) a.rows h,
      )
      refl

movements :
    (s e : Date) (accounts : List Account)
    → All (λ a. Sided a.rows) accounts
    → All (λ a. mov_on s e (head_from a) ≡ movement_on s e a) accounts
movements s e [] h = tt
movements s e (a ∷ rest) h = (mov_on-movement_on s e a h.0, movements s e rest h.1)

-- For a book that was posted from validated entries, the accounts that the checker fills from the
-- chart and the entries answer `bal_at` as the book answers `balance_at`, and `mov` as it answers
-- `movement`, for every name, on every day and over every period, also with a missing name's `KeyError`.
pub fill-answers :
    (b b' : Book) (heads : List Head) (n : Text) (s e : Date)
    → validate_vouchers b.accounts b.vouchers ≡ ok tt
    → post b ≡ ok b'
    → fill (map read_of b.vouchers) (map head_from (map reset b.accounts)) ≡ ok heads
    → (bal_at heads n e ≡ balance_at b' n e) × (mov heads n s e ≡ movement b' n s e)
unfolding bal_at balance_at mov movement
fill-answers b b' heads n s e valid posted filled =
    let same_heads = ok-injective (sym filled ∙ fill-post b b' valid posted) in
    rw same_heads (
      looked_up (bal_on e) (balance_on e) n b'.accounts
          (All-All _ (bal_on-balance_on e) b'.accounts),
      looked_up (mov_on s e) (movement_on s e) n b'.accounts
          (movements s e b'.accounts (post-Sided b b' posted)),
    )
