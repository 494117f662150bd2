-- ===== src/Posting/Ledger.antt =====
-- What every account keeps as `post` goes through the entries: its rows carry the running balance.
use rukka_folio.Prelude.{
  ◌≡◌, refl, List, [], ◌∷◌, ◌++◌, ℤ, ◌+ℤ◌, ◌-ℤ◌, int_laws, dr_of, cr_of, Text, All, map,
}
use rukka_folio.Fault.{ok, >>=-eq-ok}
use rukka_folio.Book.{Account, Voucher, Line, Row, Book}
use rukka_folio.Book.Changed.{change-Changed, All-Changed, ok-injective}
use rukka_folio.Posting.{post_row, post_lines, post_vouchers, post, reset, close_off}
use rukka_folio.Posting.Parts.{post-parts}

module _ {κ} (P : Account → Type κ) (Q : Voucher → Type 0)
    (step : (w : Voucher) (part : Text) (amt : ℤ) (a : Account)
      → Q w
      → P a
      → P (post_row w part amt a)) where
  All-post_lines :
      (w : Voucher) (ls : List Line) (before after : List Account)
      → Q w
      → post_lines w ls before ≡ ok after
      → All P before
      → All P after
  unfolding post_lines
  All-post_lines w [] before after c h k = rw (← ok-injective h) k
  All-post_lines w (l ∷ ls) before after c h k =
      let (mid, p, q) = >>=-eq-ok _ _ h in
      All-post_lines w ls mid after c q
        (All-Changed l.0 _ P (λ a. step w _ l.1 a c) (change-Changed l.0 _ before mid p) k)

  pub All-post_vouchers :
      (ws : List Voucher) (before after : List Account)
      → All Q ws
      → post_vouchers ws before ≡ ok after
      → All P before
      → All P after
  unfolding post_vouchers
  All-post_vouchers [] before after c h k = rw (← ok-injective h) k
  All-post_vouchers (w ∷ ws) before after c h k =
      let (mid, p, q) = >>=-eq-ok _ _ h in
      All-post_vouchers ws mid after c.1 q (All-post_lines w w.lines before mid c.0 p k)

-- From `start`, each row's balance is the one before it plus its Dr less its Cr; the last is `end`.
abbrev pub Running : ℤ → List Row → ℤ → Type 0
Running start [] end = start ≡ end
Running start (r ∷ rs) end = (r.bal ≡ start +ℤ (r.dr -ℤ r.cr)) × Running r.bal rs end

Running-append :
    (start mid end : ℤ) (rs : List Row) (r : Row)
    → Running start rs mid
    → r.bal ≡ mid +ℤ (r.dr -ℤ r.cr)
    → r.bal ≡ end
    → Running start (rs ++ (r ∷ [])) end
Running-append start mid end [] r h k e = (rw h k, e)
Running-append start mid end (q ∷ rs) r h k e = (h.0, Running-append q.bal mid end rs r h.1 k e)

pub dr-cr : (a : ℤ) → dr_of a -ℤ cr_of a ≡ a
dr-cr a = omega int_laws

abbrev pub IsRunning : Account → Type 0
IsRunning a = Running a.opening a.rows a.bal

IsRunning-post_row :
    (w : Voucher) (part : Text) (amt : ℤ) (a : Account)
    → IsRunning a
    → IsRunning (post_row w part amt a)
unfolding post_row
IsRunning-post_row w part amt a h =
    Running-append a.opening a.bal (a.bal +ℤ amt) a.rows _ h (rw (dr-cr amt) refl) refl

pub All-map {κ} :
    (P Q : Account → Type κ) (f : Account → Account)
    → ((a : Account) → P a → Q (f a))
    → (accounts : List Account) → All P accounts
    → All Q (map f accounts)
All-map P Q f k [] h = tt
All-map P Q f k (a ∷ rest) h = (k a h.0, All-map P Q f k rest h.1)

pub All-All {ℓ κ} : {A : Type ℓ} (P : A → Type κ) → ((a : A) → P a) → (xs : List A) → All P xs
All-All P k [] = tt
All-All P k (x ∷ xs) = (k x, All-All P k xs)

-- In every book that `post` returns, each row of an account carries the balance of the row before
-- it, or the opening balance, with its own Dr added and its Cr taken off, and the last balance is
-- the closing balance.
pub post-IsRunning :
    (b b' : Book) → post b ≡ ok b' → All (λ a. Running a.opening a.rows a.closing) b'.accounts
post-IsRunning b b' h =
    let (after, p, e) = post-parts b b' h in
    rw e (
      All-map IsRunning (λ a. Running a.opening a.rows a.closing) close_off (λ a r. r) after
        (All-post_vouchers IsRunning (λ w. Unit) (λ w part amt a u. IsRunning-post_row w part amt a)
          b.vouchers (map reset b.accounts) after (All-All _ (λ w. tt) b.vouchers) p
          (All-map (λ a. Unit {0}) IsRunning reset (λ a u. refl) b.accounts
            (All-All _ (λ a. tt) b.accounts))))
