-- ===== src/Examples/Shop.antt =====
-- What holds of the shop once it is posted: the hypotheses of the theorems.
use rukka_folio.Prelude.{
  ◌≤◌, ◌≡◌, refl, true, false, List, [], ◌∷◌, All, pos, negsuc, txt, same, some, arith,
}
use rukka_folio.Dates.{D, fy_end}
use rukka_folio.Book.{Account, Row, account, new_book, has_account}
use rukka_folio.Posting.{post}
use rukka_folio.Close.{result_name, owner_account}
use rukka_folio.Close.Lines.{UniqueNames, In, here, there}
use rukka_folio.Close.Nil.{CanClose}
use rukka_folio.Kinds.{is_equity_kind}
use rukka_folio.Queries.Posted.{IsPosted}
use rukka_folio.Report.Closing.{is_npo}
use rukka_folio.Examples.Sample.{
  customer, owner, shop, posted, shop-valid, shop-posted, shop-openings, shop-dates, received,
}

abbrev pub owner_posted : Account
owner_posted = record owner { bal = negsuc 49999; closing = negsuc 49999 }

pub owner-In : In owner_posted posted.accounts
unfolding post new_book account txt same
owner-In = there _ (there _ (here _))

pub shop_unique : UniqueNames posted.accounts
unfolding post new_book account txt same has_account
shop_unique = (refl, (refl, (refl, (refl, (refl, (refl, tt))))))

pub shop-result_new : has_account (result_name posted.style) posted.accounts ≡ false
unfolding post new_book account txt same has_account result_name
shop-result_new = refl

pub shop-owner : owner_account posted.accounts ≡ some (txt "Capital A/c")
unfolding post new_book account txt same owner_account
shop-owner = refl

pub shop-alone : posted.partners ≡ []
unfolding post new_book account txt same
shop-alone = refl

pub shop-CanClose : CanClose posted (result_name posted.style) (txt "Capital A/c") owner_posted
unfolding account txt
shop-CanClose = record {
  unique = shop_unique;
  res_new = shop-result_new;
  owner_in = owner-In;
  owner_name = refl;
  owner_kind = refl;
}

abbrev pub cash_rows : List Row
cash_rows =
    record {
      date = 739430;
      vid = [];
      vch = received;
      part = [];
      dr = pos 20000;
      cr = pos 0;
      bal = pos 70000;
    }
    ∷ []

abbrev pub paid_customer : Account
paid_customer = record customer { rows = cash_rows }

pub shop-ends : All (λ w. w.date ≤ fy_end) shop.vouchers
unfolding new_book fy_end D
shop-ends = (omega arith, (omega arith, (omega arith, (omega arith, tt))))

pub shop-IsPosted : IsPosted shop posted
shop-IsPosted = record {
  valid = shop-valid;
  from = shop-dates;
  up_to = shop-ends;
  openings = shop-openings;
  posted = shop-posted;
}

pub owner-equity : is_equity_kind owner_posted.kind ≡ true
unfolding is_equity_kind account
owner-equity = refl

pub shop-no_trust : is_npo posted.style ≡ false
unfolding post new_book account txt same
shop-no_trust = refl
