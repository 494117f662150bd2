-- ===== src/Close/Lines.antt =====
-- What the lines of a close entry come to on one name, and that an entry's lines add up to nothing.
use rukka_folio.Prelude.{
  ◌≡◌, refl, sym, ◌∙◌, Bool, true, false, not, ◌&&◌, Bool-cases, inl, inr, List, [], ◌∷◌, ◌++◌,
  if◌then◌else◌, ◌==◌, ℤ, pos, ◌+ℤ◌, +ℤ-zero, zero-+ℤ, int_laws, sum_by, sum_by-append, is_nil,
  keep, length, map, Text, same, same→eq, same_refl, arith,
}
use rukka_folio.Kinds.{Kind, is_kind}
use rukka_folio.Fault.{Result, ok, ◌>>=◌, >>=-eq-ok, guard->>-eq-ok, close_unbalanced}
use rukka_folio.Book.{Account, Line, has_account}
use rukka_folio.Book.Changed.{ok-injective}
use rukka_folio.Close.{CloseEntry, add_close, open_heads, made, not_nil}
use rukka_folio.Close.Effect.{amount_on, entries_on}

abbrev pub lines_sum : List Line → ℤ
lines_sum = sum_by (λ l. l.1)

-- A measure of lines that nil lines do not change.
drop_nil :
    (f : Line → ℤ)
    → ((l : Line) → is_nil l.1 ≡ true → f l ≡ pos 0)
    → (ls : List Line) → sum_by f (keep (λ l. not (is_nil l.1)) ls) ≡ sum_by f ls
drop_nil f z [] = refl
drop_nil f z (l ∷ ls) = elim (Bool-cases (is_nil l.1)) [
  | inl e ↦ rw (e, drop_nil f z ls, z l e) (sym (zero-+ℤ _))
  | inr e ↦ rw (e, drop_nil f z ls)
]

nil-zero : (a : ℤ) → is_nil a ≡ true → a ≡ pos 0
nil-zero a h = ground arith

amount-nil : (n : Text) (l : Line) → is_nil l.1 ≡ true → (if same l.0 n then l.1 else pos 0) ≡ pos 0
amount-nil n l h =
    rw (nil-zero l.1 h) (elim (Bool-cases (same l.0 n)) [ inl e ↦ rw e | inr e ↦ rw e ])

none-left : (f : Line → ℤ) (ls : List Line) → (length ls == 0) ≡ true → sum_by f ls ≡ pos 0
none-left f [] h = refl
none-left f (l ∷ ls) h = ground arith

-- An added entry adds its lines' amounts.
pub add_close-entries_on :
    (n prefix note : Text) (ls : List Line) (out after : List CloseEntry)
    → add_close prefix note ls out ≡ ok after
    → entries_on n after ≡ entries_on n out +ℤ amount_on n ls
unfolding add_close
add_close-entries_on n prefix note ls out after h =
    let same_amount = drop_nil (λ l. if same l.0 n then l.1 else pos 0) (amount-nil n) ls in
    elim (Bool-cases (length (not_nil ls) == 0)) [
      | inl e ↦
          rw (← ok-injective (rw e at h), ← same_amount, none-left _ (not_nil ls) e)
            (sym (+ℤ-zero _))
      | inr e ↦
          let last = made prefix note (not_nil ls) out in
          let (z, k) =
            guard->>-eq-ok (is_nil (lines_sum (not_nil ls))) close_unbalanced
              (ok (out ++ (last ∷ []))) (rw e at h) in
          rw
            (
              ← ok-injective k,
              sum_by-append (λ (x : CloseEntry). amount_on n x.lines) out (last ∷ []),
              ← same_amount,
            )
            (omega int_laws)
    ]

-- Lines that add up to nothing are accepted.
pub add_close_returns :
    (prefix note : Text) (ls : List Line) (out : List CloseEntry)
    → lines_sum ls ≡ pos 0
    → (after : List CloseEntry) × (add_close prefix note ls out ≡ ok after)
unfolding add_close
add_close_returns prefix note ls out h = elim (Bool-cases (length (not_nil ls) == 0)) [
  | inl e ↦ (out, rw e)
  | inr e ↦ (
    out ++ (made prefix note (not_nil ls) out ∷ []),
    rw (e, drop_nil (λ l. l.1) (λ l z. nil-zero l.1 z) ls, h),
  )
]

-- The accounts have different names.
abbrev pub UniqueNames : List Account → Type 0
UniqueNames [] = Unit
UniqueNames (a ∷ rest) = (has_account a.name rest ≡ false) × UniqueNames rest

-- One of the accounts.
pub data In (a : Account) : List Account → Type 0 where
  here : (rest : List Account) → In a (a ∷ rest)
  there : (b : Account) {rest : List Account} → In a rest → In a (b ∷ rest)

pub In-has_account :
    (a : Account) {accounts : List Account} → In a accounts → has_account a.name accounts ≡ true
unfolding has_account
In-has_account a (here rest) = rw (same_refl a.name)
In-has_account a (there b i) = rw (In-has_account a i) (ground arith)

pub later-differs :
    (a b : Account) (rest : List Account)
    → has_account b.name rest ≡ false
    → In a rest
    → same b.name a.name ≡ false
later-differs a b rest h i = elim (Bool-cases (same b.name a.name)) [
  | inl e ↦
      absurd (clash (has_account b.name rest) (rw (same→eq b.name a.name e) (In-has_account a i)) h)
  | inr e ↦ e
]
  where
    clash : (x : Bool) → x ≡ true → x ≡ false → ⊥
    clash x p q = cc

-- The lines of the heads of a kind, at the amount f.
abbrev pub heads_at : (Account → ℤ) → Kind → List Account → List Line
heads_at f k accounts = map (λ a. (a.name, f a)) (open_heads k accounts)

module _ (f : Account → ℤ) (z : (a : Account) → is_nil a.closing ≡ true → f a ≡ pos 0)
    (k : Kind) where
  pub heads-absent :
      (n : Text) (accounts : List Account)
      → has_account n accounts ≡ false
      → amount_on n (heads_at f k accounts) ≡ pos 0
  unfolding has_account
  heads-absent n [] h = refl
  heads-absent n (a ∷ rest) h =
      let (x, y) = absent-parts a.name n rest h in
      elim (Bool-cases (is_kind a.kind k && not (is_nil a.closing))) [
        | inl e ↦ rw (e, x, heads-absent n rest y) (omega int_laws)
        | inr e ↦ rw e (heads-absent n rest y)
      ]
    where
      absent-parts :
          (m p : Text) (r : List Account)
          → (if same m p then true else has_account p r) ≡ false
          → (same m p ≡ false) × (has_account p r ≡ false)
      absent-parts m p r h = ground arith

  -- An account's own name occurs once, if its kind is the one that is closed.
  pub heads-amount :
      (a : Account) (accounts : List Account)
      → UniqueNames accounts
      → In a accounts
      → amount_on a.name (heads_at f k accounts) ≡ (if is_kind a.kind k then f a else pos 0)
  heads-amount a accounts u (here rest) = elim (Bool-cases (is_kind a.kind k)) [
    | inl e ↦ elim (Bool-cases (is_nil a.closing)) [
      | inl y ↦ rw (e, y, heads-absent a.name rest u.0, z a y)
      | inr y ↦ rw (e, y, same_refl a.name, heads-absent a.name rest u.0) (+ℤ-zero _)
    ]
    | inr e ↦ rw (e, heads-absent a.name rest u.0)
  ]
  heads-amount a accounts u (there b {rest = rest} i) =
      elim (Bool-cases (is_kind b.kind k && not (is_nil b.closing))) [
        | inl e ↦ rw (e, later-differs a b rest u.0 i) (zero-+ℤ _ ∙ heads-amount a rest u.1 i)
        | inr e ↦ rw e (heads-amount a rest u.1 i)
      ]

-- A chain of entries, each of which adds up to nothing, is made.
pub add_close-then :
    (prefix note : Text) (ls : List Line) (out : List CloseEntry)
    (k : List CloseEntry → Result (List CloseEntry))
    → lines_sum ls ≡ pos 0
    → ((next : List CloseEntry) → (es : List CloseEntry) × (k next ≡ ok es))
    → (es : List CloseEntry) × ((add_close prefix note ls out >>= k) ≡ ok es)
add_close-then prefix note ls out k h step =
    let (next, p) = add_close_returns prefix note ls out h in
    let (es, q) = step next in (es, rw p q)

-- The amounts on a name along such a chain.
pub add_close-amounts :
    (n prefix note : Text) (ls : List Line) (out es : List CloseEntry) (x : ℤ)
    (k : List CloseEntry → Result (List CloseEntry))
    → ((next : List CloseEntry) → k next ≡ ok es → entries_on n es ≡ entries_on n next +ℤ x)
    → (add_close prefix note ls out >>= k) ≡ ok es
    → entries_on n es ≡ entries_on n out +ℤ amount_on n ls +ℤ x
add_close-amounts n prefix note ls out es x k step h =
    let (next, p, q) = >>=-eq-ok (add_close prefix note ls out) k h in
    rw (step next q, add_close-entries_on n prefix note ls out next p)
