-- ===== src/Posting/Balance.antt =====
-- Totals over the accounts as `post` goes through the entries: what one line adds to the measure of
-- its account is added to the total.
use rukka_folio.Prelude.{◌≡◌, List, [], ◌∷◌, ℤ, ◌+ℤ◌, int_laws, sum_by, Text}
use rukka_folio.Fault.{ok, >>=-eq-ok}
use rukka_folio.Book.{Account, Voucher, Line}
use rukka_folio.Book.Changed.{change-Changed, sum-Changed, ok-injective}
use rukka_folio.Posting.{post_row, post_lines, post_vouchers}

-- μ measures an account, and g is what a line of a voucher adds to it.
module _ (μ : Account → ℤ) (g : Voucher → ℤ → ℤ)
    (step : (w : Voucher) (part : Text) (amt : ℤ) (a : Account)
      → μ (post_row w part amt a) ≡ μ a +ℤ g w amt) where
  abbrev pub lines_add : Voucher → List Line → ℤ
  lines_add w = sum_by (λ l. g w l.1)

  abbrev pub vouchers_add : List Voucher → ℤ
  vouchers_add = sum_by (λ w. lines_add w w.lines)

  pub sum-post_lines :
      (w : Voucher) (ls : List Line) (before after : List Account)
      → post_lines w ls before ≡ ok after
      → sum_by μ after ≡ sum_by μ before +ℤ lines_add w ls
  unfolding post_lines
  sum-post_lines w [] before after h = rw (← ok-injective h) (omega int_laws)
  sum-post_lines w (l ∷ ls) before after h =
      let (mid, p, q) = >>=-eq-ok _ _ h in
      let first =
        sum-Changed l.0 _ μ (g w l.1) (step w _ l.1) (change-Changed l.0 _ before mid p) in
      rw (sum-post_lines w ls mid after q, first) (omega int_laws)

  pub sum-post_vouchers :
      (ws : List Voucher) (before after : List Account)
      → post_vouchers ws before ≡ ok after
      → sum_by μ after ≡ sum_by μ before +ℤ vouchers_add ws
  unfolding post_vouchers
  sum-post_vouchers [] before after h = rw (← ok-injective h) (omega int_laws)
  sum-post_vouchers (w ∷ ws) before after h =
      let (mid, p, q) = >>=-eq-ok _ _ h in
      rw (sum-post_vouchers ws mid after q, sum-post_lines w w.lines before mid p) (omega int_laws)
