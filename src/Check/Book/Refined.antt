-- ===== src/Check/Book/Refined.antt =====
-- The checker's book, derived from the entries, is what a reader sees of the book that `post` makes.
use rukka_folio.Prelude.{
  ◌≡◌, refl, sym, ◌∙◌, ap, List, [], ◌∷◌, ◌≢◌, ◌++◌, ℤ, pos, neg, ◌+ℤ◌, ◌-ℤ◌, int_laws, map, Text,
  same, All, Bool-cases, inl, inr,
}
use rukka_folio.Fault.{Result, ok, err, ◌>>=◌}
use rukka_folio.Book.{Account, Voucher, Line, Row, Book, change, amount, dr_lines, cr_lines}
use rukka_folio.Posting.Parts.{post-parts}
use rukka_folio.Posting.Ledger.{dr-cr, Running, post-IsRunning}
use rukka_folio.Posting.{post_row, post_lines, post_vouchers, post, reset, close_off, particulars}
use rukka_folio.Entry.Known.{IsKnown, IsEntry, validate_vouchers-IsEntry}
use rukka_folio.Entry.{validate_vouchers}
use rukka_folio.Check.Book.Swapped.{Once, Once-distinct, printed_lines, take_lines-sides}
use rukka_folio.Check.Book.{
  Posted, Read, Head, append_post, take_lines, take_entries, fill, with_closing, total_of,
}

-- A row, and an account, as the checker keeps them.
abbrev pub posted_of : Row → Posted
posted_of r = record { date = r.date; vid = r.vid; amount = r.dr -ℤ r.cr }

abbrev pub head_from : Account → Head
head_from a = record {
  name = a.name;
  word = a.group;
  opening = a.opening;
  posts = map posted_of a.rows;
  closing = a.closing;
}

-- An entry as the Day Book prints it, with its debit lines first.
abbrev pub read_of : Voucher → Read
unfolding dr_lines cr_lines amount
read_of w = record {
  date = w.date;
  vid = w.vid;
  vtype = w.vtype;
  lines = dr_lines w ++ map (λ l. (l.0, neg l.1)) (cr_lines w);
  amount = amount w;
  narr = w.narration;
}

map-append : (xs ys : List Row) → map posted_of (xs ++ ys) ≡ map posted_of xs ++ map posted_of ys
map-append [] ys = refl
map-append (x ∷ xs) ys = ap (λ t. posted_of x ∷ t) (map-append xs ys)

-- What the book `accounts'`, if there is one, is to a reader.
abbrev seen : Result (List Account) → Result (List Head)
seen r = do ok (map head_from (← r))

head_from-post_row :
    (w : Voucher) (part : Text) (amt : ℤ) (a : Account)
    → head_from (post_row w part amt a) ≡ record (head_from a) {
      posts = map posted_of a.rows ++ (record { date = w.date; vid = w.vid; amount = amt } ∷ []);
    }
unfolding post_row
head_from-post_row w part amt a =
    ap (λ t. record (head_from a) { posts = t })
      (map-append a.rows _
        ∙ ap (λ x. map posted_of a.rows ++ (record { date = w.date; vid = w.vid; amount = x } ∷ []))
            (dr-cr amt))

seen-cons :
    (a : Account) (r : Result (List Account))
    → seen (r >>= λ x. ok (a ∷ x)) ≡ (seen r >>= λ x. ok (head_from a ∷ x))
seen-cons a (err e) = refl
seen-cons a (ok x) = refl

seen-bind :
    (r : Result (List Account)) (f : List Account → Result (List Account))
    (g : List Head → Result (List Head))
    → ((x : List Account) → g (map head_from x) ≡ seen (f x))
    → (seen r >>= g) ≡ seen (r >>= f)
seen-bind (err e) f g h = refl
seen-bind (ok x) f g h = h x

-- One line, posted on its account, and read.
append_post-change :
    (w : Voucher) (part : Text) (n : Text) (amt : ℤ) (accounts : List Account)
    → append_post n (record { date = w.date; vid = w.vid; amount = amt }) (map head_from accounts)
      ≡ seen (change n (post_row w part amt) accounts)
unfolding append_post change
append_post-change w part n amt [] = refl
append_post-change w part n amt (a ∷ rest) = elim (Bool-cases (same a.name n)) [
  | inl e ↦ rw (e) (ap (λ h. ok (h ∷ map head_from rest)) (sym (head_from-post_row w part amt a)))
  | inr e ↦
      rw (e, append_post-change w part n amt rest)
        (sym (seen-cons a (change n (post_row w part amt) rest)))
]

-- The lines, in the order in which `post` takes them.
take_lines-post_lines :
    (w : Voucher) (ls : List Line) (accounts : List Account)
    → take_lines (read_of w) ls (map head_from accounts) ≡ seen (post_lines w ls accounts)
unfolding take_lines post_lines dr_lines cr_lines amount
take_lines-post_lines w [] accounts = refl
take_lines-post_lines w (l ∷ ls) accounts =
    rw (append_post-change w (particulars accounts w l) l.0 l.1 accounts) (
      seen-bind (change l.0 (post_row w (particulars accounts w l) l.1) accounts) (post_lines w ls)
        (take_lines (read_of w) ls) (take_lines-post_lines w ls))

pub not_nil :
    (accounts : List Account) (ls : List Line)
    → All (IsKnown accounts) ls
    → All (λ l. l.1 ≢ pos 0) ls
not_nil accounts [] h = tt
not_nil accounts (l ∷ ls) h = (h.0.1, not_nil accounts ls h.1)

Once-IsEntry : (accounts : List Account) (w : Voucher) → IsEntry accounts w → Once w.lines
Once-IsEntry accounts w h = Once-distinct w.lines h.once (not_nil accounts w.lines h.known)

-- The checker takes a printed entry as `post` takes the entry.
take_entries-post_vouchers :
    (ws : List Voucher) (accounts : List Account)
    → All (λ w. Once w.lines) ws
    → take_entries (map read_of ws) (map head_from accounts) ≡ seen (post_vouchers ws accounts)
unfolding take_entries post_vouchers dr_lines cr_lines amount
take_entries-post_vouchers [] accounts h = refl
take_entries-post_vouchers (w ∷ ws) accounts h =
    ap (λ ls. take_lines (read_of w) ls (map head_from accounts) >>= take_entries (map read_of ws))
      (printed_lines w)
    ∙ (ap (λ r. r >>= take_entries (map read_of ws))
          (take_lines-sides (read_of w) w.lines h.0 (map head_from accounts)
            ∙ take_lines-post_lines w w.lines accounts)
        ∙ seen-bind (post_lines w w.lines accounts) (post_vouchers ws)
            (take_entries (map read_of ws)) (λ x. take_entries-post_vouchers ws x h.1))

Once-entries :
    (accounts : List Account) (ws : List Voucher)
    → All (IsEntry accounts) ws
    → All (λ w. Once w.lines) ws
Once-entries accounts [] h = tt
Once-entries accounts (w ∷ ws) h = (Once-IsEntry accounts w h.0, Once-entries accounts ws h.1)

total-Running :
    (start end : ℤ) (rs : List Row)
    → Running start rs end
    → start +ℤ total_of (map posted_of rs) ≡ end
total-Running start end [] h = omega (int_laws, h)
total-Running start end (r ∷ rs) h = omega (int_laws, h.0, total-Running r.bal end rs h.1)

closed :
    (accounts : List Account)
    → All (λ a. Running a.opening a.rows a.closing) (map close_off accounts)
    → map with_closing (map head_from accounts) ≡ map head_from (map close_off accounts)
unfolding with_closing
closed [] h = refl
closed (a ∷ rest) h = rw (total-Running a.opening a.bal a.rows h.0, closed rest h.1) refl

-- For a book whose entries passed `validate_vouchers` and were posted, the checker, from the chart's
-- accounts without their rows and the entries with their debit lines first, fills the accounts that
-- are the posted ones as a reader sees them: the same names, types and openings, one posting for each
-- row, with its date, its number and its Dr less its Cr, and the same closing balances.
pub fill-post :
    (b b' : Book)
    → validate_vouchers b.accounts b.vouchers ≡ ok tt
    → post b ≡ ok b'
    → fill (map read_of b.vouchers) (map head_from (map reset b.accounts))
      ≡ ok (map head_from b'.accounts)
unfolding fill
fill-post b b' valid posted =
    let (after, p, e) = post-parts b b' posted in
    let running = post-IsRunning b b' posted in
    rw
      (
        take_entries-post_vouchers b.vouchers (map reset b.accounts) (
            Once-entries b.accounts b.vouchers
              (validate_vouchers-IsEntry b.accounts b.vouchers valid)),
        p,
        e,
      )
      (ap ok (closed after (rw e at running)))
