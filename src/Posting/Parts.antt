-- ===== src/Posting/Parts.antt =====
-- The book that `post` returns, taken apart, and totals over its accounts.
use rukka_folio.Prelude.{◌≡◌, refl, List, [], ◌∷◌, map, ℤ, ◌+ℤ◌, sum_by, ◌∙◌, sym, Text}
use rukka_folio.Fault.{ok, >>=-eq-ok}
use rukka_folio.Book.{Account, Book, Voucher}
use rukka_folio.Book.Changed.{ok-injective}
use rukka_folio.Posting.{post_row, post_vouchers, post, reset, close_off}
use rukka_folio.Posting.Balance.{vouchers_add, sum-post_vouchers}

pub post-parts :
    (b b' : Book)
    → post b ≡ ok b'
    → (after : List Account) × (post_vouchers b.vouchers (map reset b.accounts) ≡ ok after)
      × (b' ≡ record b { accounts = map close_off after })
unfolding post
post-parts b b' h =
    let (after, p, q) =
      >>=-eq-ok (post_vouchers b.vouchers (map reset b.accounts))
        (λ done. ok (record b { accounts = map close_off done })) h in
    (after, p, sym (ok-injective q))

pub sum_by-map :
    (μ ν : Account → ℤ) (f : Account → Account)
    → ((a : Account) → μ (f a) ≡ ν a)
    → (accounts : List Account) → sum_by μ (map f accounts) ≡ sum_by ν accounts
sum_by-map μ ν f e [] = refl
sum_by-map μ ν f e (a ∷ rest) = rw (e a, sum_by-map μ ν f e rest)

-- A measure that starts at ν, takes g from each line, and that closing off leaves alone.
module _ (μ ν : Account → ℤ) (g : Voucher → ℤ → ℤ)
    (step : (w : Voucher) (part : Text) (amt : ℤ) (a : Account)
      → μ (post_row w part amt a) ≡ μ a +ℤ g w amt)
    (start : (a : Account) → μ (reset a) ≡ ν a) where
  pub sum-post :
      (b : Book) (after : List Account)
      → post_vouchers b.vouchers (map reset b.accounts) ≡ ok after
      → sum_by μ after ≡ sum_by ν b.accounts +ℤ vouchers_add μ g step b.vouchers
  sum-post b after p =
      sum-post_vouchers μ g step b.vouchers (map reset b.accounts) after p
      ∙ rw (sum_by-map μ ν reset start b.accounts)
