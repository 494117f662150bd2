-- ===== src/Queries/Totals.antt =====
-- Double entry on every day: the balances of all the accounts add up to nothing.
use rukka_folio.Prelude.{
  ◌≡◌, refl, true, false, Bool-cases, inl, inr, leb, if◌then◌else◌, List, [], ◌∷◌, ◌++◌, ℤ, pos,
  ◌+ℤ◌, ◌-ℤ◌, int_laws, sum_by, sum_by-append, keep, Text, All, ◌∙◌, Bool,
}
use rukka_folio.Dates.{Date}
use rukka_folio.Fault.{ok}
use rukka_folio.Book.{Account, Voucher, Book, Row, Line}
use rukka_folio.Entry.Known.{IsEntry, validate_vouchers-IsEntry}
use rukka_folio.Entry.{validate_vouchers}
use rukka_folio.Posting.{post, post_row, reset, close_off, opening_total}
use rukka_folio.Posting.Ledger.{dr-cr}
use rukka_folio.Posting.Parts.{post-parts, sum-post, sum_by-map}
use rukka_folio.Queries.{balance_on}

pub keep-append {ℓ} :
    {A : Type ℓ} (p : A → Bool) (xs ys : List A) → keep p (xs ++ ys) ≡ keep p xs ++ keep p ys
keep-append p [] ys = refl
keep-append p (x ∷ xs) ys = elim (Bool-cases (p x)) [
  | inl e ↦ rw (e, keep-append p xs ys)
  | inr e ↦ rw (e, keep-append p xs ys)
]

abbrev net : Row → ℤ
net r = r.dr -ℤ r.cr

-- What a line adds to the balances on day d.
abbrev pub by_day : Date → Voucher → ℤ → ℤ
by_day d w amt = if leb w.date d then amt else pos 0

sum-keep-one :
    (p : Bool) (r : Row) → sum_by net (if p then r ∷ [] else []) ≡ (if p then net r else pos 0)
sum-keep-one true r = omega int_laws
sum-keep-one false r = refl

pub balance_on-post_row :
    (d : Date) (w : Voucher) (part : Text) (amt : ℤ) (a : Account)
    → balance_on d (post_row w part amt a) ≡ balance_on d a +ℤ by_day d w amt
unfolding balance_on post_row
balance_on-post_row d w part amt a =
    rw (keep-append (λ (r : Row). leb r.date d) a.rows, sum_by-append net)
      (elim (Bool-cases (leb w.date d)) [
        | inl e ↦ rw (e, dr-cr amt) (omega int_laws)
        | inr e ↦ rw e (omega int_laws)
      ])

sum-by_day :
    (d : Date) (w : Voucher) (ls : List Line)
    → sum_by (λ l. by_day d w l.1) ls ≡ by_day d w (sum_by (λ l. l.1) ls)
sum-by_day d w [] = elim (Bool-cases (leb w.date d)) [ inl e ↦ rw e | inr e ↦ rw e ]
sum-by_day d w (l ∷ ls) = elim (Bool-cases (leb w.date d)) [
  | inl e ↦ rw (sum-by_day d w ls, e)
  | inr e ↦ rw (sum-by_day d w ls, e) (omega int_laws)
]

-- Balanced entries add nothing, on any day.
vouchers_add-nil :
    (d : Date) (accounts : List Account) (ws : List Voucher)
    → All (IsEntry accounts) ws
    → sum_by (λ w. sum_by (λ l. by_day d w l.1) w.lines) ws ≡ pos 0
vouchers_add-nil d accounts [] h = refl
vouchers_add-nil d accounts (w ∷ ws) h =
    rw (sum-by_day d w w.lines, h.0.balanced, vouchers_add-nil d accounts ws h.1)
      (elim (Bool-cases (leb w.date d)) [
        | inl e ↦ rw e (omega int_laws)
        | inr e ↦ rw e (omega int_laws)
      ])

balance_on-reset : (d : Date) (a : Account) → balance_on d (reset a) ≡ a.opening
unfolding balance_on
balance_on-reset d a = omega int_laws

-- When `post` returns a book whose entries passed `validate_vouchers`, the balances of all
-- accounts on any day add up to the total of the openings.
pub balances-opening_total :
    (b b' : Book) (d : Date)
    → validate_vouchers b.accounts b.vouchers ≡ ok tt
    → post b ≡ ok b'
    → sum_by (balance_on d) b'.accounts ≡ opening_total b.accounts
unfolding balance_on
balances-opening_total b b' d h k =
    let (after, p, e) = post-parts b b' k in
    rw e (
      sum_by-map (balance_on d) (balance_on d) close_off (λ a. refl) after
      ∙ sum-post (balance_on d) (λ a. a.opening) (by_day d) (balance_on-post_row d)
          (balance_on-reset d) b after p
      ∙ rw
          (vouchers_add-nil d b.accounts b.vouchers
            (validate_vouchers-IsEntry b.accounts b.vouchers h))
          (omega int_laws))

step-bal :
    (w : Voucher) (part : Text) (amt : ℤ) (a : Account) → (post_row w part amt a).bal ≡ a.bal +ℤ amt
unfolding post_row
step-bal w part amt a = refl

lines-nil :
    (accounts : List Account) (ws : List Voucher)
    → All (IsEntry accounts) ws
    → sum_by (λ w. sum_by (λ l. l.1) w.lines) ws ≡ pos 0
lines-nil accounts [] h = refl
lines-nil accounts (w ∷ ws) h = rw (h.0.balanced, lines-nil accounts ws h.1) (omega int_laws)

-- The closing balances add up to the openings.
pub closings-opening_total :
    (b b' : Book)
    → validate_vouchers b.accounts b.vouchers ≡ ok tt
    → post b ≡ ok b'
    → sum_by (λ a. a.closing) b'.accounts ≡ opening_total b.accounts
closings-opening_total b b' h k =
    let (after, p, e) = post-parts b b' k in
    rw e (
      sum_by-map (λ a. a.closing) (λ a. a.bal) close_off (λ a. refl) after
      ∙ sum-post (λ a. a.bal) (λ a. a.opening) (λ w amt. amt) step-bal (λ a. refl) b after p
      ∙ rw (lines-nil b.accounts b.vouchers (validate_vouchers-IsEntry b.accounts b.vouchers h))
          (omega int_laws))
