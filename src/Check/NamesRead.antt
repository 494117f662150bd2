-- ===== src/Check/NamesRead.antt =====
-- `split_cell` of the checker reads back the cell that `side_cell` prints.
use rukka_folio.Prelude.{
  ◌≡◌, refl, ◌∙◌, ap, ℕ, ◌==◌, Bool, true, false, not, ◌&&◌, ◌||◌, List, [], ◌∷◌, ◌++◌, every, Text,
  txt, join, starts_with, same, same→eq, and-left, and-right, none, some, All, arith,
}
use rukka_folio.Check.Cells.{is_space, lstrip, rstrip, strip, behind}
use rukka_folio.Check.Tables.{split_from}
use rukka_folio.Check.Entries.{is_figure, split_named, is_some}

-- No `<` and no `₹` is in the text.
abbrev pub NoMarks : Text → Type 0
NoMarks = All (λ c. ((c == 60) ≡ false) × ((c == 8377) ≡ false))

abbrev pub NoTags : Text → Type 0
NoTags = All (λ c. (c == 60) ≡ false)

abbrev pub NoRupees : Text → Type 0
NoRupees = All (λ c. (c == 8377) ≡ false)

-- A text that begins with a character that is no blank.
abbrev pub Begins : Text → Type 0
Begins [] = ⊥
Begins (c ∷ s) = is_space c ≡ false

-- A name of an account that a cell can show: no mark is in it, and no blank is at its ends.
pub record IsName (n : Text) : Type 0 where
  pub plain : NoMarks n
  pub begins : Begins n
  pub ends : rstrip n ≡ n

-- The test for it.
unfoldable pub shows : Text → Bool
unfolding rstrip same
shows [] = false
shows (c ∷ s) =
    not (is_space c)
    && (every (λ d. not ((d == 60) || (d == 8377))) (c ∷ s) && same (rstrip (c ∷ s)) (c ∷ s))

no_mark :
    (c : ℕ) → not ((c == 60) || (c == 8377)) ≡ true → ((c == 60) ≡ false) × ((c == 8377) ≡ false)
no_mark c h = ground (arith, h)

NoMarks-every : (s : Text) → every (λ d. not ((d == 60) || (d == 8377))) s ≡ true → NoMarks s
NoMarks-every [] h = tt
NoMarks-every (c ∷ s) h = (
  no_mark c (and-left (not ((c == 60) || (c == 8377))) _ h),
  NoMarks-every s (and-right (not ((c == 60) || (c == 8377))) _ h),
)

not_space : (b : Bool) → not b ≡ true → b ≡ false
not_space b h = ground arith

pub IsName-shows : (n : Text) → shows n ≡ true → IsName n
unfolding shows
IsName-shows [] h = cc
IsName-shows (c ∷ s) h = record {
  plain =
      NoMarks-every (c ∷ s)
        (and-left _ (same (rstrip (c ∷ s)) (c ∷ s)) (and-right (not (is_space c)) _ h));
  begins = not_space (is_space c) (and-left _ _ h);
  ends = same→eq _ _ (
      and-right (every (λ d. not ((d == 60) || (d == 8377))) (c ∷ s)) _
        (and-right (not (is_space c)) _ h));
}

pub strip-Begins : (s : Text) → Begins s → rstrip s ≡ s → strip s ≡ s
unfolding strip lstrip
strip-Begins [] b e = absurd b
strip-Begins (c ∷ s) b e = rw b e

pub no_tags : (s : Text) → NoMarks s → NoTags s
no_tags [] h = tt
no_tags (c ∷ s) h = (h.0.0, no_tags s h.1)

-- No tag is found, and nothing is split.
pub behind-NoTags : (t s : Text) → NoTags s → behind (60 ∷ t) s ≡ none
unfolding behind starts_with same
behind-NoTags t [] h = refl
behind-NoTags t (c ∷ s) h = rw (h.0) (behind-NoTags t s h.1)

pub split_from-NoTags : (t s : Text) → NoTags s → split_from (60 ∷ t) 0 s ≡ s ∷ []
unfolding split_from starts_with
split_from-NoTags t [] h = refl
split_from-NoTags t (c ∷ s) h = rw (h.0, split_from-NoTags t s h.1) refl

never : (b q : Bool) → (b && false && q) ≡ false
never true q = refl
never false q = refl

pub split_named-NoRupees : (s : Text) → NoRupees s → split_named s ≡ none
unfolding split_named starts_with txt
split_named-NoRupees [] h = refl
split_named-NoRupees (c ∷ []) h = rw (never (c == 32) (is_figure [])) refl
split_named-NoRupees (c ∷ d ∷ s) h =
    rw (split_named-NoRupees (d ∷ s) h.1, h.1.0, never (c == 32) (is_figure s)) refl

-- The last ` ₹` is found, behind any name.
pub split_named-amount :
    (n a : Text)
    → NoRupees a
    → is_figure a ≡ true
    → split_named (n ++ (32 ∷ 8377 ∷ a)) ≡ some (n, a)
unfolding split_named starts_with txt
split_named-amount [] a h f = rw (split_named-NoRupees a h, f) refl
split_named-amount (c ∷ n) a h f = rw (split_named-amount n a h f) refl

-- Parts with no tag in them, joined by `<br>`, are split again.
unfoldable pub break : Text
unfolding txt
break = txt "<br>"

split-front :
    (s t : Text) → NoTags s → split_from break 0 (s ++ (break ++ t)) ≡ s ∷ split_from break 0 t
unfolding split_from break starts_with txt
split-front [] t h = refl
split-front (c ∷ s) t h = rw (h.0, split-front s t h.1) refl

pub split-join :
    (p : Text) (ps : List Text)
    → All NoTags (p ∷ ps)
    → split_from break 0 (join break (p ∷ ps)) ≡ p ∷ ps
unfolding join break txt
split-join p [] h = split_from-NoTags (txt "br>") p h.0
split-join p (q ∷ ps) h =
    split-front p (join break (q ∷ ps)) h.0 ∙ ap (λ rest. p ∷ rest) (split-join q ps h.1)

pub break-found : (s t : Text) → NoTags s → is_some (behind break (s ++ (break ++ t))) ≡ true
unfolding behind break starts_with txt
break-found [] t h = refl
break-found (c ∷ s) t h = rw (h.0) (break-found s t h.1)
