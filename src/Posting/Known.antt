-- ===== src/Posting/Known.antt =====
-- `post` never raises on validated entries: every line finds its account.
use rukka_folio.Prelude.{
  ◌≡◌, refl, true, List, [], ◌∷◌, Text, All, inl, inr, Bool-cases, map, same, ◌∙◌,
}
use rukka_folio.Fault.{ok, Result}
use rukka_folio.Book.{Account, Voucher, Line, Book, change, has_account}
use rukka_folio.Entry.Known.{IsKnown, IsEntry, validate_vouchers-IsEntry}
use rukka_folio.Posting.{post_row, post_lines, post_vouchers, post, reset, close_off, particulars}
use rukka_folio.Entry.{validate_vouchers}

-- The same names stand in the same places.
abbrev pub SameNames : List Account → List Account → Type 0
SameNames before after = (m : Text) → has_account m after ≡ has_account m before

-- The call returned, and left the names alone.
abbrev Returns : List Account → Result (List Account) → Type 0
Returns before r = (after : List Account) × (r ≡ ok after) × SameNames before after

change-Returns :
    (n : Text) (f : Account → Account)
    → ((a : Account) → (f a).name ≡ a.name)
    → (accounts : List Account) → has_account n accounts ≡ true
    → Returns accounts (change n f accounts)
unfolding change has_account
change-Returns n f keeps [] h = cc
change-Returns n f keeps (a ∷ rest) h = elim (Bool-cases (same a.name n)) [
  | inl e ↦ (f a ∷ rest, rw e, λ m. rw (keeps a))
  | inr e ↦
      let (after, p, q) = change-Returns n f keeps rest (rw e at h) in
      (a ∷ after, rw (e, p), λ m. rw (q m))
]

IsKnown-after :
    (before after : List Account)
    → SameNames before after
    → (ls : List Line) → All (IsKnown before) ls
    → All (IsKnown after) ls
IsKnown-after before after q [] h = tt
IsKnown-after before after q (l ∷ ls) h =
    ((q l.0 ∙ h.0.0, h.0.1), IsKnown-after before after q ls h.1)

post_lines-Returns :
    (w : Voucher) (ls : List Line) (accounts : List Account)
    → All (IsKnown accounts) ls
    → Returns accounts (post_lines w ls accounts)
unfolding post_lines post_row
post_lines-Returns w [] accounts h = (accounts, refl, λ m. refl)
post_lines-Returns w (l ∷ ls) accounts h =
    let (mid, p, q) =
      change-Returns l.0 (post_row w (particulars accounts w l) l.1) (λ a. refl) accounts h.0.0 in
    let (after, p', q') = post_lines-Returns w ls mid (IsKnown-after accounts mid q ls h.1) in
    (after, rw p p', λ m. q' m ∙ q m)

entries_after :
    (before after : List Account)
    → SameNames before after
    → (ws : List Voucher) → All (IsEntry before) ws
    → All (IsEntry after) ws
entries_after before after q [] h = tt
entries_after before after q (w ∷ ws) h = (
  record {
    two_lines = h.0.two_lines;
    balanced = h.0.balanced;
    once = h.0.once;
    known = IsKnown-after before after q w.lines h.0.known;
    typed = h.0.typed;
  },
  entries_after before after q ws h.1,
)

pub post_vouchers-Returns :
    (ws : List Voucher) (accounts : List Account)
    → All (IsEntry accounts) ws
    → Returns accounts (post_vouchers ws accounts)
unfolding post_vouchers
post_vouchers-Returns [] accounts h = (accounts, refl, λ m. refl)
post_vouchers-Returns (w ∷ ws) accounts h =
    let (mid, p, q) = post_lines-Returns w w.lines accounts h.0.known in
    let (after, p', q') = post_vouchers-Returns ws mid (entries_after accounts mid q ws h.1) in
    (after, rw p p', λ m. q' m ∙ q m)

SameNames-reset : (accounts : List Account) → SameNames accounts (map reset accounts)
unfolding has_account
SameNames-reset [] m = refl
SameNames-reset (a ∷ rest) m = rw (SameNames-reset rest m)

pub post_returns_on :
    (b : Book) → All (IsEntry b.accounts) b.vouchers → (b' : Book) × (post b ≡ ok b')
unfolding post
post_returns_on b h =
    let (after, p, q) =
      post_vouchers-Returns b.vouchers (map reset b.accounts)
        (entries_after _ _ (SameNames-reset b.accounts) b.vouchers h) in
    (record b { accounts = map close_off after }, rw p)

-- When the entries of a book pass `validate_vouchers`, `post` returns a book: no entry names an
-- account that is not there.
pub post_returns :
    (b : Book) → validate_vouchers b.accounts b.vouchers ≡ ok tt → (b' : Book) × (post b ≡ ok b')
post_returns b h = post_returns_on b (validate_vouchers-IsEntry b.accounts b.vouchers h)
