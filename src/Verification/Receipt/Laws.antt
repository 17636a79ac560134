-- ===== src/Verification/Receipt/Laws.antt =====
-- `verifyReceipt` passes exactly the evidence that matches the job and its assignment.
use compute_markets.Prelude.{
  ℕ, String, Bool, inl, inr, true, ◌≡◌, refl, sym, subst, ap, List, ok, ok-injective, Bool-cases,
  ◌∙◌, ◌>>=◌, bind_ok, and_then, failures_of, Holds, str_eq, eq_iff,
}
use compute_markets.Json.{arr, strings}
use compute_markets.JobSpec.{ComputeJobSpec}
use compute_markets.JobSpec.Encode.{job_spec_json, inputs_json}
use compute_markets.Receipts.{Libraries, bytes, commitment, sha256, verify_payload, decode_key}
use compute_markets.Receipts.Receipt.{ExecutionReceipt, SignedReceipt, receipt_json, parse_receipt}
use compute_markets.Verification.Receipt.{
  Assignment, Evidence, Verdict, Commitments, telemetry_json, output_json, receipt_checks,
  commitments_of, verdict_of, verify_receipt,
}
use compute_markets.Verification.Receipt.Attested.{Commits, Attested}
use compute_markets.Verification.Receipt.Checks.{
  parties_iff, IsTimely-iff, measured_iff, identity_iff, evidence_iff, groups_iff, passed_iff,
}

module _ (libraries : Libraries) where
  -- What the verifier computed before its checks.
  record Computed (envelope : SignedReceipt) (spec : ComputeJobSpec) (a : Assignment) (e : Evidence)
      (p : ExecutionReceipt) (c : Commitments) : Type 0 where
    signed :
        (key : List ℕ) × (decode_key libraries a.worker ≡ ok key)
        × (verify_payload libraries (receipt_json p) envelope.signature key ≡ c.signed)
    receipt : Commits libraries c.receipt (receipt_json p)
    spec_hash : Commits libraries c.spec (job_spec_json spec)
    inputs : Commits libraries c.inputs (inputs_json spec.inputs)
    output :
        c.output ≡ true
        → (p.result_hash ≡ sha256 libraries (bytes e.result))
          × Commits libraries p.output_root (output_json p.result_hash)
    hardware : Commits libraries c.hardware e.hardware
    telemetry : Commits libraries c.telemetry (telemetry_json e.telemetry)
    gpus : Commits libraries c.gpus (arr (strings e.telemetry.gpu_uuids))

  output_of :
      (p : ExecutionReceipt) (hash_of_result : String) (found : Bool)
      → and_then (str_eq p.result_hash hash_of_result) (do
        root ← commitment libraries (output_json hash_of_result)
        ok (str_eq p.output_root root))
        ≡ ok found
      → found ≡ true
      → (p.result_hash ≡ hash_of_result)
        × Commits libraries p.output_root (output_json p.result_hash)
  output_of p hash_of_result found h holds =
      elim (Bool-cases (str_eq p.result_hash hash_of_result)) [
        | inl test ↦
            let same = (eq_iff p.result_hash hash_of_result).0 test in
            bind_ok (commitment libraries (output_json hash_of_result)) _ (rw test at h)
              λ root e_root h1.
                (same, rw (same, (eq_iff p.output_root root).0 (ok-injective h1 ∙ holds)) e_root)
        | inr test ↦ absurd (cc (h, test, holds))
      ]

  computed :
      (envelope : SignedReceipt) (spec : ComputeJobSpec) (a : Assignment) (e : Evidence)
      (p : ExecutionReceipt) (c : Commitments)
      → commitments_of libraries p envelope spec a e ≡ ok c
      → Computed envelope spec a e p c
  unfolding commitments_of
  computed envelope spec a e p c h = bind_ok (decode_key libraries a.worker) _ h λ key e_key h1.
      bind_ok (commitment libraries (receipt_json p)) _ h1 λ r e_r h2.
        bind_ok (commitment libraries (job_spec_json spec)) _ h2 λ s e_s h3.
          bind_ok (commitment libraries (inputs_json spec.inputs)) _ h3 λ i e_i h4.
            bind_ok (and_then (str_eq p.result_hash (sha256 libraries (bytes e.result))) _) _ h4
              λ o e_o h5. bind_ok (commitment libraries e.hardware) _ h5 λ hw e_hw h6.
                bind_ok (commitment libraries (telemetry_json e.telemetry)) _ h6 λ t e_t h7.
                  bind_ok (commitment libraries (arr (strings e.telemetry.gpu_uuids))) _ h7
                    λ g e_g h8. subst (Computed envelope spec a e p) (ok-injective h8) (record {
                      signed = (key, e_key, refl);
                      receipt = e_r;
                      spec_hash = e_s;
                      inputs = e_i;
                      output = output_of p (sha256 libraries (bytes e.result)) o e_o;
                      hardware = e_hw;
                      telemetry = e_t;
                      gpus = e_g;
                    })

  attested :
      (envelope : SignedReceipt) (spec : ComputeJobSpec) (a : Assignment) (e : Evidence)
      (p : ExecutionReceipt) (c : Commitments)
      → parse_receipt libraries envelope.payload ≡ ok p
      → Computed envelope spec a e p c
      → Holds (receipt_checks libraries p spec a e c)
      → Attested libraries envelope spec a e p
  attested envelope spec a e p c e_p found h =
      let (signed, g1, g2, g3, g4, g5) = (groups_iff libraries p spec a e c).0 h in
      let (active, receipt, spec_hash, assigned, policy, image, inputs) =
        (identity_iff p spec a c).0 g2 in
      let (stdout, stderr, output, hardware, assigned_hw, telemetry, gpus) =
        (evidence_iff libraries p a e c).0 g4 in
      record {
        payload = e_p;
        signed = (found.signed.0, found.signed.1, found.signed.2 ∙ signed);
        parties = (parties_iff p a).0 g1;
        active = active;
        receipt = rw (sym receipt) found.receipt;
        spec_hash = rw spec_hash found.spec_hash;
        assigned_spec = assigned;
        policy = policy;
        image = image;
        inputs = rw inputs found.inputs;
        timely = (IsTimely-iff p spec a).0 g3;
        stdout = stdout;
        stderr = stderr;
        result = (found.output output).0;
        output = (found.output output).1;
        hardware = rw hardware found.hardware;
        assigned_hardware = assigned_hw;
        telemetry = rw telemetry found.telemetry;
        gpus = rw gpus found.gpus;
        measured = (measured_iff p spec e).0 g5;
      }

  -- A receipt that passes is read by the schema, and everything that `Attested` lists holds of it:
  -- the worker's signature is valid, the receipt is for the assignment's job, parties,
  -- specification and policy, its hashes are the commitments of the evidence, its times fit the
  -- assignment and the timeout, the exit code is 0, and above the basic policy the measurements fit.
  pub verify_receipt-Attested :
      (envelope : SignedReceipt) (spec : ComputeJobSpec) (a : Assignment) (e : Evidence)
      (v : Verdict)
      → verify_receipt libraries envelope spec a e ≡ ok v
      → v.passed ≡ true
      → (p : ExecutionReceipt) × Attested libraries envelope spec a e p
  unfolding verify_receipt
  verify_receipt-Attested envelope spec a e v h passed =
      bind_ok (parse_receipt libraries envelope.payload) _ h λ p e_p h1.
        bind_ok (commitments_of libraries p envelope spec a e) _ h1 λ c e_c h2. (
          p,
          attested envelope spec a e p c e_p (computed envelope spec a e p c e_c) (
              (passed_iff spec (receipt_checks libraries p spec a e c)).0
                (ap (λ w. w.passed) (ok-injective h2) ∙ passed)),
        )

  output_holds :
      (p : ExecutionReceipt) (hash_of_result : String)
      → p.result_hash ≡ hash_of_result
      → Commits libraries p.output_root (output_json p.result_hash)
      → and_then (str_eq p.result_hash hash_of_result) (do
        root ← commitment libraries (output_json hash_of_result)
        ok (str_eq p.output_root root))
        ≡ ok true
  output_holds p hash_of_result same root =
      rw
        (
          sym same,
          (eq_iff p.result_hash p.result_hash).1 refl,
          root,
          (eq_iff p.output_root p.output_root).1 refl,
        )
        refl

  -- The commitments that the verifier finds for attested evidence.
  abbrev found_commitments : Assignment → ExecutionReceipt → Commitments
  found_commitments a p = record {
    signed = true;
    receipt = a.receipt_hash;
    spec = p.job_spec_hash;
    inputs = p.input_root;
    output = true;
    hardware = p.hardware_report_hash;
    telemetry = p.telemetry_hash;
    gpus = p.gpu_uuid_commitment;
  }

  found :
      (envelope : SignedReceipt) (spec : ComputeJobSpec) (a : Assignment) (e : Evidence)
      (p : ExecutionReceipt)
      → Attested libraries envelope spec a e p
      → commitments_of libraries p envelope spec a e ≡ ok (found_commitments a p)
  unfolding commitments_of
  found envelope spec a e p h =
      rw
        (
          h.signed.1,
          h.signed.2,
          h.receipt,
          h.spec_hash,
          h.inputs,
          output_holds p (sha256 libraries (bytes e.result)) h.result h.output,
          h.hardware,
          h.telemetry,
          h.gpus,
        )
        refl

  holding :
      (envelope : SignedReceipt) (spec : ComputeJobSpec) (a : Assignment) (e : Evidence)
      (p : ExecutionReceipt)
      → Attested libraries envelope spec a e p
      → Holds (receipt_checks libraries p spec a e (found_commitments a p))
  holding envelope spec a e p h = (groups_iff libraries p spec a e (found_commitments a p)).1 (
    refl,
    (parties_iff p a).1 h.parties,
    (identity_iff p spec a (found_commitments a p)).1
        (h.active, refl, refl, h.assigned_spec, h.policy, h.image, refl),
    (IsTimely-iff p spec a).1 h.timely,
    (evidence_iff libraries p a e (found_commitments a p)).1
        (h.stdout, h.stderr, refl, refl, h.assigned_hardware, refl, refl),
    (measured_iff p spec e).1 h.measured,
  )

  -- Evidence of which all that holds passes.
  pub verify_receipt-passes :
      (envelope : SignedReceipt) (spec : ComputeJobSpec) (a : Assignment) (e : Evidence)
      (p : ExecutionReceipt)
      → Attested libraries envelope spec a e p
      → (v : Verdict) × (verify_receipt libraries envelope spec a e ≡ ok v) × (v.passed ≡ true)
  unfolding verify_receipt
  verify_receipt-passes envelope spec a e p h = (
    verdict_of spec (failures_of (receipt_checks libraries p spec a e (found_commitments a p))),
    rw (h.payload, found envelope spec a e p h) refl,
    (passed_iff spec _).1 (holding envelope spec a e p h),
  )
