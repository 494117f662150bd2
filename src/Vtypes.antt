-- ===== src/Vtypes.antt =====
-- The voucher types: `PLAIN_VTYPE`, whose keys are `VTYPES`, and `APP_VERB`.
use rukka_folio.Prelude.{List, [], ◌∷◌, if◌then◌else◌, Option, none, some, Text, txt, same}

-- A table from voucher types to words.
abbrev pub Words : Type 0
Words = List (Text × Text)

unfoldable pub word_of : Text → Words → Option Text
word_of v [] = none
word_of v ((k, w) ∷ ws) = if same k v then some w else word_of v ws

unfoldable pub keys : Words → List Text
keys [] = []
keys ((k, w) ∷ ws) = k ∷ keys ws

unfoldable pub plain_vtype : Words
unfolding txt
plain_vtype =
    (txt "Receipt", txt "Money in")
    ∷ (txt "Payment", txt "Money out")
    ∷ (txt "Contra", txt "Transfer")
    ∷ (txt "Journal (credit given)", txt "Gave on credit")
    ∷ (txt "Journal (credit taken)", txt "Took on credit")
    ∷ (txt "Journal (advance settled)", txt "Advance settled")
    ∷ (txt "Journal (paid by partner)", txt "Paid by a partner")
    ∷ (txt "Journal (correction)", txt "Correction")
    ∷ (txt "Journal (paid by family)", txt "Paid by the joint family")
    ∷ (txt "Journal (settled)", txt "Settled at year end")
    ∷ (txt "Journal", txt "Fix / Adjust")
    ∷ (txt "Payment (from a fund)", txt "Paid from a fund")
    ∷ (txt "Journal (interest added)", txt "Interest added to a deposit")
    ∷ (txt "Journal (written off)", txt "Written off")
    ∷ (txt "Journal (set off)", txt "Deposit set off")
    ∷ (txt "Journal (deposit forfeited)", txt "Deposit forfeited")
    ∷ (txt "Journal (retention released)", txt "Retention released")
    ∷ (txt "Journal (from a fund)", txt "Moved from a fund")
    ∷ []

unfoldable pub app_verb : Words
unfolding txt
app_verb =
    (txt "Receipt", txt "money_in")
    ∷ (txt "Payment", txt "money_out")
    ∷ (txt "Contra", txt "transfer")
    ∷ (txt "Journal (credit given)", txt "gave_credit")
    ∷ (txt "Journal (credit taken)", txt "took_credit")
    ∷ (
      txt "Journal (advance settled)",
      txt "advance spend (02 §7) — non-member advance, see GAPS A10",
    )
    ∷ (
      txt "Journal (paid by partner)",
      txt "partner pays from own pocket (02 §1.2 partner) — see GAPS",
    )
    ∷ (txt "Journal (correction)", txt "amend / re-classify (02 §5) — see GAPS")
    ∷ (
      txt "Journal (paid by family)",
      txt "02 §6 one-sided case (a book pays another's cost) — see GAPS A11",
    )
    ∷ (
      txt "Journal (settled)",
      txt "year-end settlement of a sub-family account (owner's option) — see GAPS A11",
    )
    ∷ (txt "Journal", txt "adjustment, or a non-money journal 02 §2 lacks — see GAPS")
    ∷ (
      txt "Payment (from a fund)",
      txt
          "one action, two postings (O-17-1): Dr expense · Cr money, and Dr fund · Cr transfer from the fund — see GAPS E2",
    )
    ∷ (
      txt "Journal (interest added)",
      txt
          "interest the bank adds to a deposit (O-09-5, O-17-2): Dr deposit · Cr fund or income — see GAPS A3",
    )
    ∷ (
      txt "Journal (written off)",
      txt
          "write-off to an expense head (O-06-5, O-12-1, O-18-5): Dr Written off · Cr the account — see GAPS A5",
    )
    ∷ (
      txt "Journal (set off)",
      txt
          "deposit held set off against what the same person owes (O-09-8, O-12-2): Dr deposit held · Cr the person — see GAPS A5",
    )
    ∷ (
      txt "Journal (deposit forfeited)",
      txt
          "deposit held kept as income (O-09-8, O-18-3): Dr deposit held · Cr Deposit forfeited — see GAPS A5",
    )
    ∷ (
      txt "Journal (retention released)",
      txt
          "retention money released by transfer to the party's account (O-06-4): Dr the person · Cr retention held — see GAPS D2",
    )
    ∷ (
      txt "Journal (from a fund)",
      txt
          "year-end transfer from a fund for its purpose already paid from general money (bookkeeper A7, 1 Nov 2026): Dr fund · Cr transfer from the fund — see GAPS E2",
    )
    ∷ []

unfoldable pub vtypes : List Text
unfolding keys plain_vtype
vtypes = keys plain_vtype
