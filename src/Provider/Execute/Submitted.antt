-- ===== src/Provider/Execute/Submitted.antt =====
-- The receipts that were submitted for a job, and its evidence file.
use compute_markets.Prelude.{◌≡◌, refl, sym, subst, ◌∙◌, String, Option, none, some, ok, All}
use compute_markets.Json.{Json}
use compute_markets.Receipts.{Libraries}
use compute_markets.Journal.{read_evidence}
use compute_markets.Provider.{World}
use compute_markets.Provider.Bundle.{receipt_hash}
use compute_markets.Provider.Execute.Books.{submissions, SameBooks}

-- The hash is that of the receipt in the evidence.
abbrev pub IsReceiptOf : Libraries → Option Json → String → Type 0
IsReceiptOf libraries none hash = ⊥
IsReceiptOf libraries (some bundle) hash = receipt_hash libraries bundle ≡ ok hash

module _ {S : Type 0} (libraries : Libraries) (job : String) where
  -- Every receipt that was submitted for the job is the one in its evidence file.
  abbrev pub IsBacked : World S → Type 0
  IsBacked w = All (IsReceiptOf libraries (read_evidence job w.files)) (submissions job w.sent)

  -- The same where the evidence is known.
  abbrev pub HasEvidence : Option Json → World S → Type 0
  HasEvidence e w =
      (read_evidence job w.files ≡ e) × All (IsReceiptOf libraries e) (submissions job w.sent)

  pub backed : (e : Option Json) (w : World S) → HasEvidence e w → IsBacked w
  backed e w (found, all) =
      subst (λ x. All (IsReceiptOf libraries x) (submissions job w.sent)) (sym found) all

  pub kept_evidence :
      (e : Option Json) (a b : World S) → HasEvidence e a → SameBooks job a b → HasEvidence e b
  kept_evidence e a b (found, all) (same, sent) =
      (sym same ∙ found, subst (All (IsReceiptOf libraries e)) sent all)

  pub kept_backed : (a b : World S) → IsBacked a → SameBooks job a b → IsBacked b
  kept_backed a b h same =
      backed (read_evidence job a.files) b
        (kept_evidence (read_evidence job a.files) a b (refl, h) same)
