-- ===== src/Queries/Trial.antt =====
-- The trial balance, and the closing balances as balances on the last day.
use rukka_folio.Prelude.{
  ◌≡◌, ◌≤◌, ◌↔◌, refl, sym, ◌∙◌, leb, le→leb, List, [], ◌∷◌, ◌++◌, map, ℤ, pos, ◌+ℤ◌, ◌-ℤ◌,
  int_laws, sum_by, keep, All,
}
use rukka_folio.Dates.{Date}
use rukka_folio.Fault.{ok}
use rukka_folio.Book.{Account, Book, Row}
use rukka_folio.Entry.{validate_vouchers}
use rukka_folio.Posting.{post, post_row, reset, close_off, opening_total, dr_total, cr_total}
use rukka_folio.Posting.Ledger.{Running, All-post_vouchers, All-map, All-All, post-IsRunning}
use rukka_folio.Posting.Parts.{post-parts}
use rukka_folio.Queries.{balance_on}
use rukka_folio.Queries.Totals.{closings-opening_total}

sum-sides :
    (accounts : List Account)
    → sum_by (λ a. a.closing) accounts ≡ dr_total accounts -ℤ cr_total accounts
sum-sides [] = omega int_laws
sum-sides (a ∷ rest) = rw (sum-sides rest) (omega int_laws)

-- When `post` returns a book whose entries passed `validate_vouchers`, its debit and its credit
-- closing balances have the same total exactly when the openings add up to nil.
pub trial_balance-openings :
    (b b' : Book)
    → validate_vouchers b.accounts b.vouchers ≡ ok tt
    → post b ≡ ok b'
    → (dr_total b'.accounts ≡ cr_total b'.accounts) ↔ (opening_total b.accounts ≡ pos 0)
trial_balance-openings b b' h k =
    let e = sym (sum-sides b'.accounts) ∙ closings-opening_total b b' h k in
    (λ q. omega (int_laws, e), λ q. omega (int_laws, e))

-- Every row is dated on or before day d.
abbrev pub UpTo : Date → List Row → Type 0
UpTo d = All (λ r. r.date ≤ d)

UpTo-append :
    (d : Date) (rs : List Row) (r : Row) → UpTo d rs → r.date ≤ d → UpTo d (rs ++ (r ∷ []))
UpTo-append d [] r h k = (k, tt)
UpTo-append d (q ∷ rs) r h k = (h.0, UpTo-append d rs r h.1 k)

pub keep-UpTo : (d : Date) (rs : List Row) → UpTo d rs → keep (λ r. leb r.date d) rs ≡ rs
keep-UpTo d [] h = refl
keep-UpTo d (r ∷ rs) h = rw (le→leb r.date d h.0, keep-UpTo d rs h.1)

Running-sum :
    (start end : ℤ) (rs : List Row)
    → Running start rs end
    → start +ℤ sum_by (λ r. r.dr -ℤ r.cr) rs ≡ end
Running-sum start end [] h = omega (int_laws, h)
Running-sum start end (r ∷ rs) h = omega (int_laws, h.0, Running-sum r.bal end rs h.1)

balance_on-closing :
    (d : Date) (a : Account)
    → UpTo d a.rows × Running a.opening a.rows a.closing
    → balance_on d a ≡ a.closing
unfolding balance_on
balance_on-closing d a (u, r) = rw (keep-UpTo d a.rows u) (Running-sum a.opening a.closing a.rows r)

-- The rows of a book whose entries are dated on or before day d.
pub post-UpTo :
    (d : Date) (b b' : Book)
    → All (λ w. w.date ≤ d) b.vouchers
    → post b ≡ ok b'
    → All (λ a. UpTo d a.rows) b'.accounts
unfolding post_row
post-UpTo d b b' h k =
    let (after, p, e) = post-parts b b' k in
    rw e (
      All-map (λ a. UpTo d a.rows) (λ a. UpTo d a.rows) close_off (λ a r. r) after
        (All-post_vouchers (λ a. UpTo d a.rows) (λ w. w.date ≤ d)
          (λ w part amt a c u. UpTo-append d a.rows _ u c) b.vouchers (map reset b.accounts) after h
          p
          (All-map (λ a. Unit {0}) (λ a. UpTo d a.rows) reset (λ a u. tt) b.accounts
            (All-All _ (λ a. tt) b.accounts))))

pub All-both {ℓ} :
    {A : Type ℓ} (P Q R : A → Type 0)
    → ((x : A) → P x × Q x → R x)
    → (xs : List A) → All P xs
    → All Q xs
    → All R xs
All-both P Q R k [] h g = tt
All-both P Q R k (x ∷ xs) h g = (k x (h.0, g.0), All-both P Q R k xs h.1 g.1)

-- In a book that `post` returns, the balance of every account on a day that no entry is dated
-- after is its closing balance.
pub balance_on-post :
    (d : Date) (b b' : Book)
    → All (λ w. w.date ≤ d) b.vouchers
    → post b ≡ ok b'
    → All (λ a. balance_on d a ≡ a.closing) b'.accounts
balance_on-post d b b' h k =
    All-both (λ a. UpTo d a.rows) (λ a. Running a.opening a.rows a.closing) _ (balance_on-closing d)
      b'.accounts (post-UpTo d b b' h k) (post-IsRunning b b' k)
