-- ===== src/Report/Receipts/Agrees.antt =====
-- When the Receipts & Payments Account agrees.
use rukka_folio.Prelude.{
  ◌≡◌, ◌≢◌, ◌⊎◌, Bool-cases, inl, inr, ℕ, pos, int_laws, eq→eqb, ne→eqb, nil→eq, not_nil→ne, is_nil,
}
use rukka_folio.Fault.{ok, err, rp_differs}
use rukka_folio.Book.{Book}
use rukka_folio.Entry.{validate_vouchers}
use rukka_folio.Posting.{post}
use rukka_folio.Close.Lines.{UniqueNames}
use rukka_folio.Report.Receipts.{
  Flows, no_flows, flows_of, left_items, right_items, item_total, rp_page, sec_npo_rp,
}
use rukka_folio.Report.Receipts.Posted.{post-moved}
use rukka_folio.Report.Receipts.Net.{contra_moved, flows_of-net, validate_vouchers-IsTyped}
use rukka_folio.Report.Receipts.Items.{left_items-total, right_items-total, net-no_flows}

-- The entries of a book have passed `validate_vouchers`, `post` has returned, the accounts have distinct
-- names, and `sec_npo_rp` has counted every entry without an error. Then its two totals agree, and it
-- returns its page, when the entries of the type Contra moved nothing in or out of the money accounts;
-- otherwise its last assertion fails.
pub sec_npo_rp-contra_moved :
    (b b' : Book) (num : ℕ) (s : Flows)
    → validate_vouchers b.accounts b.vouchers ≡ ok tt
    → post b ≡ ok b'
    → UniqueNames b'.accounts
    → flows_of b'.accounts b'.vouchers no_flows ≡ ok s
    → ((contra_moved b.accounts b.vouchers ≡ pos 0) × (sec_npo_rp b' num ≡ ok (rp_page b' num s)))
      ⊎ ((contra_moved b.accounts b.vouchers ≢ pos 0) × (sec_npo_rp b' num ≡ err rp_differs))
unfolding sec_npo_rp
sec_npo_rp-contra_moved b b' num s valid posted unique counted =
    let (closings, entries, kinds) = post-moved b b' posted in
    let typed = validate_vouchers-IsTyped b.accounts b.vouchers valid in
    let total =
      flows_of-net b.accounts b'.accounts kinds unique b.vouchers no_flows s typed
        (rw entries at counted) in
    let left = left_items-total b'.accounts s in
    let right = right_items-total b'.accounts s in
    let start = net-no_flows b'.accounts in
    elim (Bool-cases (is_nil (contra_moved b.accounts b.vouchers))) [
      | inl z ↦
          let nil = nil→eq (contra_moved b.accounts b.vouchers) z in
          let agree : item_total (left_items b'.accounts s)
              ≡ item_total (right_items b'.accounts s) =
            omega (int_laws, closings, total, left, right, start, nil) in
          inl (nil, rw (counted, eq→eqb _ _ agree))
      | inr z ↦
          let moved_some = not_nil→ne (contra_moved b.accounts b.vouchers) z in
          let differ : item_total (left_items b'.accounts s)
              ≢ item_total (right_items b'.accounts s) =
            λ e. moved_some (omega (int_laws, closings, total, left, right, start, e)) in
          inr (moved_some, rw (counted, ne→eqb _ _ differ))
    ]
