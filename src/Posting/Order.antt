-- ===== src/Posting/Order.antt =====
-- The order of the entries, and their numbers.
use mathlib.Core.List.{Perm}
use mathlib.Core.List.Perm
use rukka_folio.Prelude.{
  ◌⊎◌, ◌<◌, ◌≤◌, ◌≡◌, true, false, Bool-cases, inl, inr, List, [], ◌∷◌, All, arith,
}
use rukka_folio.Book.{Voucher}
use rukka_folio.Posting.{not_after, insert_sorted, sort_vouchers}

-- An entry of an earlier date, or of the same date and a number that is not greater.
abbrev pub Before : Voucher → Voucher → Type 0
Before x y = (x.date < y.date) ⊎ ((x.date ≡ y.date) × (x.seq ≤ y.seq))

-- Each entry stands before all that come behind it.
abbrev pub IsOrdered : List Voucher → Type 0
IsOrdered [] = Unit
IsOrdered (x ∷ xs) = All (Before x) xs × IsOrdered xs

Before-trans : (x y z : Voucher) → Before x y → Before y z → Before x z
Before-trans x y z h k = ground arith

not_after-Before : (x y : Voucher) → not_after x y ≡ true → Before x y
unfolding not_after
not_after-Before x y h = ground arith

after-Before : (x y : Voucher) → not_after x y ≡ false → Before y x
unfolding not_after
after-Before x y h = ground arith

All-Before :
    (x y : Voucher) → Before x y → (ys : List Voucher) → All (Before y) ys → All (Before x) ys
All-Before x y h [] k = tt
All-Before x y h (z ∷ zs) k = (Before-trans x y z h k.0, All-Before x y h zs k.1)

All-insert_sorted :
    (P : Voucher → Type 0) (x : Voucher)
    → P x
    → (ys : List Voucher) → All P ys
    → All P (insert_sorted x ys)
unfolding insert_sorted
All-insert_sorted P x h [] k = (h, tt)
All-insert_sorted P x h (y ∷ ys) k = elim (Bool-cases (not_after x y)) [
  | inl e ↦ rw e (h, k)
  | inr e ↦ rw e (k.0, All-insert_sorted P x h ys k.1)
]

insert_sorted-IsOrdered :
    (x : Voucher) (ys : List Voucher) → IsOrdered ys → IsOrdered (insert_sorted x ys)
unfolding insert_sorted
insert_sorted-IsOrdered x [] h = (tt, tt)
insert_sorted-IsOrdered x (y ∷ ys) h = elim (Bool-cases (not_after x y)) [
  | inl e ↦ let first = not_after-Before x y e in rw e ((first, All-Before x y first ys h.0), h)
  | inr e ↦
      rw e (All-insert_sorted _ x (after-Before x y e) ys h.0, insert_sorted-IsOrdered x ys h.1)
]

insert_sorted-perm : (x : Voucher) (ys : List Voucher) → Perm (insert_sorted x ys) (x ∷ ys)
unfolding insert_sorted
insert_sorted-perm x [] = Perm.refl _
insert_sorted-perm x (y ∷ ys) = elim (Bool-cases (not_after x y)) [
  | inl e ↦ rw e (Perm.refl _)
  | inr e ↦ rw e (Perm.trans (Perm.cons y (insert_sorted-perm x ys)) (Perm.swap x y ys))
]

-- `finalize`'s sort puts the entries in the order of their dates, and on one date in the order of their
-- sequence numbers, and keeps each of them as often as it was there.
pub sort_vouchers-IsOrdered :
    (ws : List Voucher) → IsOrdered (sort_vouchers ws) × Perm (sort_vouchers ws) ws
unfolding sort_vouchers
sort_vouchers-IsOrdered [] = (tt, Perm.refl _)
sort_vouchers-IsOrdered (x ∷ xs) =
    let (o, p) = sort_vouchers-IsOrdered xs in
    (
      insert_sorted-IsOrdered x (sort_vouchers xs) o,
      Perm.trans (insert_sorted-perm x (sort_vouchers xs)) (Perm.cons x p),
    )
