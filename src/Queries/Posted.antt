-- ===== src/Queries/Posted.antt =====
-- What a book is after `post`, in a year whose openings balance.
use rukka_folio.Prelude.{◌≡◌, ◌≤◌, pos, All}
use rukka_folio.Dates.{fy_start, fy_end}
use rukka_folio.Fault.{ok}
use rukka_folio.Book.{Book}
use rukka_folio.Entry.{validate_vouchers}
use rukka_folio.Posting.{post, opening_total}

-- A book that `post` made of validated entries of the year, from openings that balance.
pub record IsPosted (b b' : Book) : Type 0 where
  pub valid : validate_vouchers b.accounts b.vouchers ≡ ok tt
  pub from : All (λ w. fy_start ≤ w.date) b.vouchers
  pub up_to : All (λ w. w.date ≤ fy_end) b.vouchers
  pub openings : opening_total b.accounts ≡ pos 0
  pub posted : post b ≡ ok b'
