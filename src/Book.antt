-- ===== src/Book.antt =====
-- `class Account`, `class Voucher` and `class Book` of docs/accounting/reference-books/build.py: the
-- state of a ledger book, and the methods that build it. `b.accounts` and `b.order` are one list, in
-- the order of `add`, which fills both; the keys are the accounts' names. A `ref` is the `seq` of
-- the voucher that it names. `closing` is 0 where Python has `None`, until `post` sets it; `vid` is
-- empty until `finalize` sets it.
pub mod Changed
use rukka_folio.Prelude.{
  ℕ, ◌+◌, Bool, true, false, ◌&&◌, List, [], ◌∷◌, ◌++◌, Option, none, some, leb, ◌==◌,
  if◌then◌else◌, ℤ, pos, neg, ◌+ℤ◌, sum_by, is_pos, is_neg, dr_of, length, keep, Text, txt, same,
  map,
}
use rukka_folio.Dates.{Date, fy_start, fy_end}
use rukka_folio.Kinds.{Kind, kind_info}
use rukka_folio.Fault.{
  Result, ok, err, ◌>>=◌, ◌>>◌, guard, duplicate_account, date_outside_year, key_error,
}

-- The lines of a voucher: the account's name, and signed paise, + for Dr.
abbrev pub Line : Type 0
Line = Text × ℤ

pub record Voucher : Type 0 where
  pub date : Date
  pub vtype : Text
  pub narration : Text
  pub lines : List Line
  pub stmt : Option Text
  pub vid : Text
  pub seq : ℕ
  pub ref : Option ℕ

-- A row of an account, as `post` appends it.
pub record Row : Type 0 where
  pub date : Date
  pub vid : Text
  pub vch : Voucher
  pub part : Text
  pub dr : ℤ
  pub cr : ℤ
  pub bal : ℤ

pub record Account : Type 0 where
  pub name : Text
  pub kind : Kind
  pub label : Text
  pub opening : ℤ
  pub group : Text
  pub dr_col : Text
  pub cr_col : Text
  pub rows : List Row
  pub bal : ℤ
  pub closing : ℤ

-- `Account(name, kind, label, opening, group, cols)`
unfoldable pub account : Text → Kind → Text → ℤ → Option Text → Option (Text × Text) → Account
unfolding kind_info
account name kind label opening group cols =
    let i = kind_info kind in
    record {
      name = name;
      kind = kind;
      label = label;
      opening = opening;
      group = elim group [ none ↦ i.word | some g ↦ g ];
      dr_col = elim cols [ none ↦ i.dr_col | some c ↦ c.0 ];
      cr_col = elim cols [ none ↦ i.cr_col | some c ↦ c.1 ];
      rows = [];
      bal = pos 0;
      closing = pos 0;
    }

-- An entry of `b.partners`; `ioc_bp` is 0 where the dictionary has no such key.
pub record Partner : Type 0 where
  pub name : Text
  pub capital : Option Text
  pub current : Text
  pub share : ℕ
  pub ioc_bp : ℕ

pub data Style : Type 0 where
  business property household npo : Style

-- `b.custom`: the account, the first and the last day, and the reason.
pub record Custom : Type 0 where
  pub name : Text
  pub start : Date
  pub end : Date
  pub why : Text

pub record Book : Type 0 where
  pub name : Text
  pub kindword : Text
  pub prefix : Text
  pub style : Style
  pub about : Text
  pub custom : Option Custom
  pub bank_extract : Option (Text × ℕ × ℕ)
  pub accounts : List Account
  pub vouchers : List Voucher
  pub partners : List Partner
  pub own_word : Text
  pub pl_title : Text
  pub assets_note : Text
  pub journal_word : Text
  pub chart_note : Text
  pub pl_note : Text
  pub put_word : Text
  pub taken_word : Text
  pub put_note : Text
  pub taken_note : Text
  pub construction : Option (Text × Text)
  pub stock_line : Bool
  pub min_count : ℕ
  pub max_count : ℕ

unfoldable pub pl_title_of : Style → Text
unfolding txt
pl_title_of business = txt "Profit & Loss Account"
pl_title_of property = txt "Profit & Loss Account"
pl_title_of household = txt "Income & Expenses"
pl_title_of npo = txt "Income & Expenditure Account"

-- `Book(name, kindword, prefix, style)`; `counts.get` defaults to 40 and 60.
unfoldable pub new_book : Text → Text → Text → Style → Book
unfolding txt pl_title_of
new_book name kindword prefix style = record {
  name = name;
  kindword = kindword;
  prefix = prefix;
  style = style;
  about = [];
  custom = none;
  bank_extract = none;
  pl_title = pl_title_of style;
  assets_note = [];
  journal_word = txt "an adjustment where no money moved";
  chart_note = [];
  pl_note = [];
  accounts = [];
  vouchers = [];
  partners = [];
  own_word = txt "Own money";
  put_word = txt "Put in";
  taken_word = txt "Taken out";
  put_note = [];
  taken_note = [];
  construction = none;
  stock_line = false;
  min_count = 40;
  max_count = 60;
}

-- `v.amount`, `v.dr_lines()` and `v.cr_lines()`
unfoldable pub amount : Voucher → ℤ
amount v = sum_by (λ l. dr_of l.1) v.lines

unfoldable pub dr_lines : Voucher → List Line
dr_lines v = keep (λ l. is_pos l.1) v.lines

unfoldable pub cr_lines : Voucher → List Line
cr_lines v = map (λ l. (l.0, neg l.1)) (keep (λ l. is_neg l.1) v.lines)

-- `name in accounts`, and `accounts[name]`.
unfoldable pub find_account : Text → List Account → Option Account
find_account n [] = none
find_account n (a ∷ rest) = if same a.name n then some a else find_account n rest

unfoldable pub has_account : Text → List Account → Bool
has_account n [] = false
has_account n (a ∷ rest) = if same a.name n then true else has_account n rest

-- `accounts[name]` changed in place; a name that is not there raises `KeyError`.
unfoldable pub change : Text → (Account → Account) → List Account → Result (List Account)
change n f [] = err key_error
change n f (a ∷ rest) = if same a.name n then ok (f a ∷ rest) else do ok (a ∷ (← change n f rest))

unfoldable pub add : Account → Book → Result Book
add a b =
    if has_account a.name b.accounts
    then err duplicate_account
    else ok (record b { accounts = b.accounts ++ (a ∷ []) })

-- `balance_opening_into(name)`
unfoldable pub balance_opening_into : Text → Book → Result Book
unfolding change
balance_opening_into n b = do
  let total = sum_by (λ a. if same a.name n then pos 0 else a.opening) b.accounts
  accounts ← change n (λ a. record a { opening = neg total }) b.accounts
  ok (record b { accounts = accounts })

-- `v(date, vtype, narration, lines, stmt)`, with the book that it leaves.
unfoldable pub v : Date → Text → Text → List Line → Option Text → Book → Result (Voucher × Book)
v date vtype narration lines stmt b = do
  guard (leb fy_start date && leb date fy_end) date_outside_year
  let vch : Voucher = record {
    date = date;
    vtype = vtype;
    narration = narration;
    lines = lines;
    stmt = stmt;
    vid = [];
    seq = length b.vouchers;
    ref = none;
  }
  ok (vch, record b { vouchers = b.vouchers ++ (vch ∷ []) })

-- The shorthands.
unfoldable pub pay : Date → Text → Text → ℤ → Text → Option Text → Book → Result (Voucher × Book)
unfolding v txt
pay date dr money amt narr stmt =
    v date (txt "Payment") narr ((dr, amt) ∷ (money, neg amt) ∷ []) stmt

unfoldable pub rec : Date → Text → Text → ℤ → Text → Option Text → Book → Result (Voucher × Book)
unfolding v txt
rec date money cr amt narr stmt =
    v date (txt "Receipt") narr ((money, amt) ∷ (cr, neg amt) ∷ []) stmt

unfoldable pub move : Date → Text → Text → ℤ → Text → Option Text → Book → Result (Voucher × Book)
unfolding v txt
move date to frm amt narr stmt = v date (txt "Contra") narr ((to, amt) ∷ (frm, neg amt) ∷ []) stmt

unfoldable pub gave : Date → Text → Text → ℤ → Text → Book → Result (Voucher × Book)
unfolding v txt
gave date party inc amt narr =
    v date (txt "Journal (credit given)") narr ((party, amt) ∷ (inc, neg amt) ∷ []) none

unfoldable pub took : Date → Text → Text → ℤ → Text → Book → Result (Voucher × Book)
unfolding v txt
took date exp party amt narr =
    v date (txt "Journal (credit taken)") narr ((exp, amt) ∷ (party, neg amt) ∷ []) none

-- `vch.ref = ref`, on the book's own copy of the voucher.
unfoldable pub set_ref : ℕ → Option ℕ → List Voucher → List Voucher
set_ref s ref [] = []
set_ref s ref (w ∷ ws) = (if w.seq == s then record w { ref = ref } else w) ∷ set_ref s ref ws

unfoldable pub fix :
    Date → Text → Text → ℤ → Text → Text → Option ℕ → Book → Result (Voucher × Book)
unfolding v set_ref
fix date dr cr amt narr vtype ref b = do
  (vch, b') ← v date vtype narr ((dr, amt) ∷ (cr, neg amt) ∷ []) none b
  ok (record vch { ref = ref }, record b' { vouchers = set_ref vch.seq ref b'.vouchers })
