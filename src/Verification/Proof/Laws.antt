-- ===== src/Verification/Proof/Laws.antt =====
-- When a proof passes.
use compute_markets.Prelude.{
  ℕ, ◌≡◌, refl, sym, ap, ◌∙◌, String, true, false, List, Option, none, some, Result, ok,
  ok-injective, bind_ok, failures_of, is_empty, eq_iff, Bool-cases, arith, inl, inr,
}
use compute_markets.Json.{Json, obj, arr, items}
use compute_markets.Receipts.{Libraries, canonical, commitment}
use compute_markets.Verification.Attestation.{text_or}
use compute_markets.Verification.Proof.{
  ProofBundle, ProofVerdict, ProofFiles, parse_bundle, accepts, says_ok, commitment_checks,
  proof_verdict, verify_groth16_proof,
}

module _ (libraries : Libraries) (run : String → ProofFiles → ℕ → Result (Option String)) where
  -- The tool's answer on the canonical texts of the bundle's parts.
  pub record IsAccepted (binary : Option String) (timeout_ms : ℕ) (b : ProofBundle) : Type 0 where
    pub files : ProofFiles
    pub key : canonical libraries (obj b.verification_key) ≡ ok files.verification_key
    pub signals : canonical libraries (arr (items b.public_signals)) ≡ ok files.public_signals
    pub proof : canonical libraries (obj b.proof) ≡ ok files.proof
    pub stdout : String
    pub ran : run (text_or binary "snarkjs") files timeout_ms ≡ ok (some stdout)
    pub accepted : says_ok stdout ≡ true

  accepted_output :
      (stdout : Option String)
      → accepts stdout ≡ true
      → (s : String) × (stdout ≡ some s) × (says_ok s ≡ true)
  accepted_output none h = absurd (cc)
  accepted_output (some s) h = (s, refl, h)

  matched :
      (key expected_key signals expected_signals : String)
      → is_empty (failures_of (commitment_checks key expected_key signals expected_signals)) ≡ true
      → (key ≡ expected_key) × (signals ≡ expected_signals)
  unfolding commitment_checks
  matched key expected_key signals expected_signals h =
      ground (arith, eq_iff key expected_key, eq_iff signals expected_signals)

  unmatched_fails :
      (v : ProofVerdict) (failures : List String)
      → is_empty failures ≡ false
      → ok (proof_verdict failures) ≡ ok v
      → v.passed ≡ false
  unfolding proof_verdict
  unmatched_fails v failures h e = sym (ap (λ w. w.passed) (ok-injective e)) ∙ h

  -- A proof passes only if the bundle is read by the schema, its verification key and its public
  -- signals have the expected commitments, and the tool, run on the canonical texts of key, signals
  -- and proof, reports success.
  pub verify_groth16_proof-IsAccepted :
      (raw : Json) (expected_key expected_signals : String) (binary : Option String)
      (timeout_ms : ℕ) (v : ProofVerdict)
      → verify_groth16_proof libraries run raw expected_key expected_signals binary timeout_ms
        ≡ ok v
      → v.passed ≡ true
      → (b : ProofBundle) × (parse_bundle raw ≡ ok b)
        × (commitment libraries (obj b.verification_key) ≡ ok expected_key)
        × (commitment libraries (arr (items b.public_signals)) ≡ ok expected_signals)
        × IsAccepted binary timeout_ms b
  unfolding verify_groth16_proof proof_verdict
  verify_groth16_proof-IsAccepted raw expected_key expected_signals binary timeout_ms v h passed =
      bind_ok (parse_bundle raw) _ h λ b e_b h1.
        bind_ok (commitment libraries (obj b.verification_key)) _ h1 λ key e_key h2.
          bind_ok (commitment libraries (arr (items b.public_signals))) _ h2 λ signals e_signals h3.
            elim (Bool-cases (
              is_empty
                (failures_of (commitment_checks key expected_key signals expected_signals)))) [
                  | inr bad ↦ absurd (cc (unmatched_fails v _ bad (rw bad at h3), passed))
                  | inl good ↦
                      let (same_key, same_signals) =
                        matched key expected_key signals expected_signals good in
                      (
                        b,
                        e_b,
                        rw (sym same_key) e_key,
                        rw (sym same_signals) e_signals,
                        bind_ok (canonical libraries (obj b.verification_key)) _ (rw good at h3)
                            λ k e_k h4.
                              bind_ok (canonical libraries (arr (items b.public_signals))) _ h4
                                λ s e_s h5.
                                  bind_ok (canonical libraries (obj b.proof)) _ h5 λ p e_p h6.
                                    bind_ok (run (text_or binary "snarkjs") _ timeout_ms) _ h6
                                      λ o e_o h7.
                                        let (stdout, same, fine) =
                                          accepted_output o (ground arith) in
                                        record {
                                          files = record {
                                            verification_key = k;
                                            public_signals = s;
                                            proof = p;
                                          };
                                          key = e_k;
                                          signals = e_s;
                                          proof = e_p;
                                          stdout = stdout;
                                          ran = rw (sym same) e_o;
                                          accepted = fine;
                                        },
                      )
                ]
