-- ===== src/Check/Rows.antt =====
-- What `cells` reads back from a row that `row_line` prints.
use rukka_folio.Prelude.{
  ◌≡◌, refl, sym, ℕ, suc, ◌+◌, ◌-◌, Bool, true, false, ◌==◌, List, [], ◌∷◌, ◌++◌, length, take,
  drop, map, All, Text, txt, join, starts_with, arith, append_assoc, length-append, Bool-cases, inl,
  inr, same, le→leb, every, not, and-left, and-right,
}
use rukka_folio.Fault.{ok}
use rukka_folio.Report.Markdown.{row_line}
use rukka_folio.Report.Family.{ends_with}
use rukka_folio.Check.Cells.{is_space, lstrip, rstrip, strip}
use rukka_folio.Check.Tables.{split_from, split_on, cells}

-- No character is a bar.
abbrev pub NoBars : Text → Type 0
NoBars = All (λ c. (c == 124) ≡ false)

-- A test for texts without a bar.
unfoldable pub barless : Text → Bool
barless = every (λ c. not (c == 124))

NoBars-barless : (s : Text) → barless s ≡ true → NoBars s
unfolding barless
NoBars-barless [] h = tt
NoBars-barless (c ∷ s) h = (ground (arith, h), NoBars-barless s (and-right (not (c == 124)) _ h))

pub All-barless : (ss : List Text) → every barless ss ≡ true → All NoBars ss
All-barless [] h = tt
All-barless (s ∷ ss) h =
    (NoBars-barless s (and-left (barless s) _ h), All-barless ss (and-right (barless s) _ h))

bars : Text
unfolding txt
bars = txt " | "

starts_with-bars : (t : Text) → starts_with (bars ++ t) bars ≡ true
unfolding starts_with bars txt
starts_with-bars t = refl

not_separator : (c : ℕ) (s : Text) → NoBars s → starts_with (c ∷ s) bars ≡ false
unfolding starts_with bars txt
not_separator c [] h = ground arith
not_separator c (d ∷ s) h = rw (h.0) (ground arith)

not_separator_front :
    (c : ℕ) (s t : Text) → NoBars s → starts_with (c ∷ (s ++ (32 ∷ t))) bars ≡ false
unfolding starts_with bars txt
not_separator_front c [] t h = ground arith
not_separator_front c (d ∷ s) t h = rw (h.0) (ground arith)

split-front :
    (s t : Text) → NoBars s → split_from bars 0 (s ++ (bars ++ t)) ≡ s ∷ split_from bars 0 t
unfolding split_from bars txt
split-front [] t h = rw (starts_with-bars t) refl
split-front (c ∷ s) t h = rw (not_separator_front c s (124 ∷ 32 ∷ t) h.1, split-front s t h.1) refl

split-last : (s : Text) → NoBars s → split_from bars 0 s ≡ s ∷ []
unfolding split_from
split-last [] h = refl
split-last (c ∷ s) h = rw (not_separator c s h.1, split-last s h.1) refl

NoBars-append : (s t : Text) → NoBars s → NoBars t → NoBars (s ++ t)
NoBars-append [] t h k = k
NoBars-append (c ∷ s) t h k = (h.0, NoBars-append s t h.1 k)

-- The pieces of a row between its bars: the blanks at its ends stay with the outer cells.
padded : Text → Text → List Text → List Text
padded p t [] = []
padded p t (c ∷ []) = (p ++ (c ++ t)) ∷ []
padded p t (c ∷ d ∷ cs) = (p ++ c) ∷ padded [] t (d ∷ cs)

split-join :
    (p t c : Text) (cs : List Text)
    → NoBars p
    → NoBars t
    → All NoBars (c ∷ cs)
    → split_from bars 0 (p ++ (join bars (c ∷ cs) ++ t)) ≡ padded p t (c ∷ cs)
unfolding padded join
split-join p t c [] q k h = split-last _ (NoBars-append p _ q (NoBars-append c t h.0 k))
split-join p t c (d ∷ cs) q k h =
    rw
      (
        append_assoc c (bars ++ join bars (d ∷ cs)) t,
        append_assoc bars (join bars (d ∷ cs)) t,
        sym (append_assoc p c (bars ++ (join bars (d ∷ cs) ++ t))),
        split-front (p ++ c) (join bars (d ∷ cs) ++ t) (NoBars-append p c q h.0),
        split-join [] t d cs tt k h.1,
      )
      refl

rstrip_space : (s : Text) → rstrip (s ++ (32 ∷ [])) ≡ rstrip s
unfolding rstrip
rstrip_space [] = refl
rstrip_space (c ∷ s) = rw (rstrip_space s) refl

strip_space : (s : Text) → strip (s ++ (32 ∷ [])) ≡ strip s
unfolding strip lstrip rstrip
strip_space [] = refl
strip_space (c ∷ s) = elim (Bool-cases (is_space c)) [
  | inl e ↦ rw (e) (strip_space s)
  | inr e ↦ rw (e) (rstrip_space (c ∷ s))
]

strip-padded : (cs : List Text) → map strip (padded [] (32 ∷ []) cs) ≡ map strip cs
unfolding padded
strip-padded [] = refl
strip-padded (c ∷ []) = rw (strip_space c) refl
strip-padded (c ∷ d ∷ cs) = rw (strip-padded (d ∷ cs)) refl

strip-padded_both : (cs : List Text) → map strip (padded (32 ∷ []) (32 ∷ []) cs) ≡ map strip cs
unfolding padded strip lstrip
strip-padded_both [] = refl
strip-padded_both (c ∷ []) = rw (strip_space c) refl
strip-padded_both (c ∷ d ∷ cs) = rw (strip-padded (d ∷ cs)) refl

rstrip_bar : (s : Text) → rstrip (s ++ (124 ∷ [])) ≡ s ++ (124 ∷ [])
unfolding rstrip
rstrip_bar [] = refl
rstrip_bar (c ∷ []) = refl
rstrip_bar (c ∷ d ∷ s) = rw (rstrip_bar (d ∷ s)) refl

pub strip_bars : (s : Text) → strip (124 ∷ (s ++ (124 ∷ []))) ≡ 124 ∷ (s ++ (124 ∷ []))
unfolding strip lstrip
strip_bars s = rstrip_bar (124 ∷ s)

inner_length : (n : ℕ) → suc (n + 1) - 1 ≡ suc n
inner_length n = omega arith

take_inner : (s t : Text) → take (length s) (s ++ t) ≡ s
take_inner [] t = refl
take_inner (c ∷ s) t = rw (take_inner s t) refl

drop_inner : (s t : Text) → drop (length s) (s ++ t) ≡ t
drop_inner [] t = refl
drop_inner (c ∷ s) t = drop_inner s t

last_drop : (n : ℕ) → (n + 1) - 1 ≡ n
last_drop n = omega arith

pub ends_with_bar : (s : Text) → ends_with (s ++ (124 ∷ [])) (124 ∷ []) ≡ true
unfolding same
ends_with_bar s =
    rw
      (
        length-append s (124 ∷ []),
        last_drop (length s),
        drop_inner s (124 ∷ []),
        le→leb 1 (length s + 1) (omega arith),
      )
      refl

-- `inner[1:-1]`
inner_of :
    (s : Text) → drop 1 (take (length (124 ∷ (s ++ (124 ∷ []))) - 1) (124 ∷ (s ++ (124 ∷ [])))) ≡ s
inner_of s = rw (length-append s (124 ∷ []), inner_length (length s), take_inner s (124 ∷ [])) refl

-- The row between its two bars.
between : Text → List Text → Text
unfolding join bars
between c cs = 32 ∷ (join bars (c ∷ cs) ++ (32 ∷ []))

row_line-between :
    (c : Text) (cs : List Text) → row_line (c ∷ cs) ≡ 124 ∷ (between c cs ++ (124 ∷ []))
unfolding row_line between bars txt join
row_line-between c cs = rw (append_assoc (join bars (c ∷ cs)) (32 ∷ []) (124 ∷ [])) refl

cells-bars : (s : Text) → cells (124 ∷ (s ++ (124 ∷ []))) ≡ ok (map strip (split_from bars 0 s))
unfolding cells split_on bars starts_with txt
cells-bars s = rw (strip_bars s, ends_with_bar (124 ∷ s), inner_of s) refl

-- A printed row reads back as its cells, each without the blanks at its ends; no cell has a bar in it.
pub cells-row_line :
    (c : Text) (cs : List Text)
    → All NoBars (c ∷ cs)
    → cells (row_line (c ∷ cs)) ≡ ok (map strip (c ∷ cs))
unfolding between
cells-row_line c cs h =
    rw
      (
        row_line-between c cs,
        cells-bars (between c cs),
        split-join (32 ∷ []) (32 ∷ []) c cs (refl, tt) (refl, tt) h,
        strip-padded_both (c ∷ cs),
      )
      refl
