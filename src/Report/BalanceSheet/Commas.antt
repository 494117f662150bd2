-- ===== src/Report/BalanceSheet/Commas.antt =====
-- How `int_or` goes through a printed amount: the stars, the commas of the groups, the point, the sign.
use rukka_folio.Prelude.{
  append_assoc, append-nil, ◌≡◌, refl, sym, ◌∙◌, ap, ℕ, zero, suc, ◌+◌, ◌*◌, ◌-◌, ◌==◌, ltb, false,
  Bool-cases, inl, inr, List, [], ◌∷◌, ◌++◌, All, Text, join, take, drop, length, take-append-drop,
  arith, if◌then◌else◌, pos, neg,
}
use rukka_folio.Money.{head_groups, grouped}
use rukka_folio.Fault.{ok}
use rukka_folio.Report.BalanceSheet.Partners.{
  int_of, without_stars, without_commas, without_minus, at_dot, int_or,
}
use rukka_folio.Report.BalanceSheet.Digits.{IsDigit}

pub without_commas-append :
    (s t : Text) → without_commas (s ++ t) ≡ without_commas s ++ without_commas t
unfolding without_commas
without_commas-append [] t = refl
without_commas-append (c ∷ s) t = elim (Bool-cases (c == 44)) [
  | inl e ↦ rw (e, without_commas-append s t)
  | inr e ↦ rw (e, without_commas-append s t)
]

digit-no_comma : (c : ℕ) → IsDigit c → (c == 44) ≡ false
digit-no_comma c h = let (low, high) = h in ground arith

digit-no_dot : (c : ℕ) → IsDigit c → (c == 46) ≡ false
digit-no_dot c h = let (low, high) = h in ground arith

pub digit-no_star : (c : ℕ) → IsDigit c → (c == 42) ≡ false
digit-no_star c h = let (low, high) = h in ground arith

digit-no_minus : (c : ℕ) → IsDigit c → (c == 8722) ≡ false
digit-no_minus c h = let (low, high) = h in ground arith

pub without_commas-digits : (s : Text) → All IsDigit s → without_commas s ≡ s
unfolding without_commas
without_commas-digits [] h = refl
without_commas-digits (c ∷ s) h = rw (digit-no_comma c h.0, without_commas-digits s h.1)

abbrev concat : List Text → Text
concat [] = []
concat (p ∷ ps) = p ++ concat ps

without_commas-join :
    (ps : List Text) → without_commas (join (44 ∷ []) ps) ≡ without_commas (concat ps)
unfolding join without_commas
without_commas-join [] = refl
without_commas-join (p ∷ []) = rw (append-nil p)
without_commas-join (p ∷ q ∷ ps) =
    without_commas-append p (44 ∷ join (44 ∷ []) (q ∷ ps))
    ∙ (ap (λ t. without_commas p ++ t) (without_commas-join (q ∷ ps))
        ∙ sym (without_commas-append p (concat (q ∷ ps))))

head_groups-concat :
    (fuel : ℕ) (head : Text) (parts : List Text)
    → concat (head_groups fuel head parts) ≡ head ++ concat parts
unfolding head_groups
head_groups-concat zero head parts = refl
head_groups-concat (suc fuel) head parts = elim (Bool-cases (ltb 2 (length head))) [
  | inl e ↦
      let n = length head - 2 in
      rw e (
        head_groups-concat fuel (take n head) (drop n head ∷ parts)
        ∙ (sym (append_assoc (take n head) (drop n head) (concat parts))
            ∙ ap (λ t. t ++ concat parts) (take-append-drop n head)))
  | inr e ↦ rw e refl
]

-- The commas of `fmt` stand between the digits that are given.
pub grouped-without_commas : (s : Text) → without_commas (grouped s) ≡ without_commas s
unfolding grouped without_commas
grouped-without_commas s = elim (Bool-cases (ltb 3 (length s))) [
  | inl e ↦
      let n = length s - 3 in
      let groups = head_groups (length (take n s)) (take n s) [] in
      rw e (
        without_commas-append (join (44 ∷ []) groups) (44 ∷ drop n s)
        ∙ (ap (λ t. t ++ without_commas (drop n s))
              (without_commas-join groups
                ∙ ap without_commas
                    (head_groups-concat (length (take n s)) (take n s) [] ∙ append-nil (take n s)))
            ∙ (sym (without_commas-append (take n s) (drop n s))
                ∙ ap without_commas (take-append-drop n s))))
  | inr e ↦ rw e refl
]

pub no_star :
    (s : Text) → All (λ c. (c == 42) ≡ false) (without_commas s) → All (λ c. (c == 42) ≡ false) s
unfolding without_commas
no_star [] h = tt
no_star (c ∷ s) h = elim (Bool-cases (c == 44)) [
  | inl e ↦ (ground (arith, e), no_star s (rw e at h))
  | inr e ↦ let kept = rw e at h in (kept.0, no_star s kept.1)
]

pub without_stars-none : (s : Text) → All (λ c. (c == 42) ≡ false) s → without_stars s ≡ s
unfolding without_stars
without_stars-none [] h = refl
without_stars-none (c ∷ []) h = refl
without_stars-none (c ∷ d ∷ s) h = rw (h.0, without_stars-none (d ∷ s) h.1)

pub at_dot-digits : (s : Text) → All IsDigit s → at_dot s ≡ (s, [])
unfolding at_dot
at_dot-digits [] h = refl
at_dot-digits (c ∷ s) h = rw (digit-no_dot c h.0, at_dot-digits s h.1)

pub at_dot-split : (s t : Text) → All IsDigit s → at_dot (s ++ (46 ∷ t)) ≡ (s, t)
unfolding at_dot
at_dot-split [] t h = refl
at_dot-split (c ∷ s) t h = rw (digit-no_dot c h.0, at_dot-split s t h.1)

module _ (cell : Text) (c : ℕ) (s : Text) (w p : ℕ) (digit : IsDigit c)
    (whole : int_of (at_dot (c ∷ s)).0 ≡ ok w)
    (part : (if length (at_dot (c ∷ s)).1 == 0 then ok 0 else int_of (at_dot (c ∷ s)).1)
      ≡ ok p) where
  pub int_or-plain :
      without_commas (without_stars cell) ≡ c ∷ s → int_or cell ≡ ok (pos (w * 100 + p))
  unfolding int_or without_minus
  int_or-plain e = rw (e, digit-no_minus c digit, whole, part)

  pub int_or-signed :
      without_commas (without_stars cell) ≡ 8722 ∷ c ∷ s
      → int_or cell ≡ ok (neg (pos (w * 100 + p)))
  unfolding int_or without_minus
  int_or-signed e = rw (e, digit-no_minus c digit, whole, part)
