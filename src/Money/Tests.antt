-- ===== src/Money/Tests.antt =====
-- Printed amounts.
use rukka_folio.Prelude.{◌∷◌, ◌≡◌, refl, pos, negsuc, txt}
use rukka_folio.Money.{fmt, minus_sign}

fmt_lakh : fmt (pos 1234567850) ≡ txt "1,23,45,678.50"
unfolding fmt txt
fmt_lakh = refl

fmt_small : fmt (negsuc 99999) ≡ minus_sign ∷ txt "1,000"
unfolding fmt txt
fmt_small = refl
