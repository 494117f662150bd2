-- ===== src/Prelude/Str.antt =====
-- Python's `str` as the list of its code points.
use Prim.Native.Nat.{ℕ, zero, suc, ◌+◌, ◌/◌, ◌%◌}
use Prim.Native.Char.{code}
use Prim.Native.String.{String}
use mathlib.Core.Path.{◌≡◌, refl}
use mathlib.Core.Bool.{Bool, true, false, ◌&&◌}
use mathlib.Core.List.{List, [], ◌∷◌, ◌++◌}
use native.Mathlib.Omega.{arith}
use rukka_folio.Prelude.Tests.{ltb, ◌==◌, if◌then◌else◌}

abbrev pub Text : Type 0
Text = List ℕ

-- A literal.
unfoldable pub txt : String → Text
txt String.[] = []
txt (String.◌∷◌ c s) = code c ∷ txt s

-- `a == b`
unfoldable pub same : Text → Text → Bool
same [] [] = true
same [] (d ∷ t) = false
same (c ∷ s) [] = false
same (c ∷ s) (d ∷ t) = (c == d) && same s t

pub same→eq : (s t : Text) → same s t ≡ true → s ≡ t
unfolding same
same→eq [] [] h = refl
same→eq [] (d ∷ t) h = cc
same→eq (c ∷ s) [] h = cc
same→eq (c ∷ s) (d ∷ t) h = ground (arith, same→eq s t)

pub same_refl : (s : Text) → same s s ≡ true
unfolding same
same_refl [] = refl
same_refl (c ∷ s) = ground (arith, same_refl s)

pub eq→same : (s t : Text) → s ≡ t → same s t ≡ true
eq→same s t e = rw e (same_refl t)

-- `s in names`
unfoldable pub mem : Text → List Text → Bool
mem s [] = false
mem s (t ∷ ts) = if same t s then true else mem s ts

-- `sep.join(parts)`
unfoldable pub join : Text → List Text → Text
join sep [] = []
join sep (p ∷ []) = p
join sep (p ∷ q ∷ ps) = p ++ (sep ++ join sep (q ∷ ps))

-- The parts of a format, put together.
abbrev pub cat : List Text → Text
cat [] = []
cat (p ∷ []) = p
cat (p ∷ q ∷ ps) = p ++ cat (q ∷ ps)

-- `a or b` on texts.
abbrev pub or_else : Text → Text → Text
or_else [] t = t
or_else (c ∷ s) t = c ∷ s

-- `s.lower()`, of the ASCII letters; the words that the source lowers are ASCII.
abbrev pub lower : Text → Text
lower [] = []
lower (c ∷ s) = (if ltb 64 c && ltb c 91 then c + 32 else c) ∷ lower s

-- `s.startswith(p)`
unfoldable pub starts_with : Text → Text → Bool
starts_with s [] = true
starts_with [] (d ∷ p) = false
starts_with (c ∷ s) (d ∷ p) = (c == d) && starts_with s p

-- `str(n)`, on fuel; n + 1 rounds are enough.
unfoldable pub digits_on : ℕ → ℕ → Text
digits_on zero n = []
digits_on (suc fuel) n =
    let more = digits_on fuel (n / 10) in
    if ltb n 10 then (b'0' + n) ∷ [] else more ++ ((b'0' + n % 10) ∷ [])

unfoldable pub str_of : ℕ → Text
unfolding digits_on
str_of n = digits_on (suc n) n

-- `"%02d" % n` and `"%03d" % n`
unfoldable pub pad2 : ℕ → Text
unfolding str_of
pad2 n = if ltb n 10 then b'0' ∷ str_of n else str_of n

unfoldable pub pad3 : ℕ → Text
unfolding pad2
pad3 n = if ltb n 100 then b'0' ∷ pad2 n else str_of n
