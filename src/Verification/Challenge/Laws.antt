-- ===== src/Verification/Challenge/Laws.antt =====
-- Which responses pass a challenge, and that an issued challenge can be answered.
use compute_markets.Prelude.{
  ℕ, ◌+◌, ◌≤◌, ◌≡◌, ◌≢◌, ◌↔◌, refl, sym, subst, ap, ◌∙◌, String, Bool, true, List, ◌++◌, Option,
  none, some, ok, ok-injective, bind_ok, failures_of-empty_iff, Holds, Holds-append_iff, str_eq,
  eq_iff, Bool-cases, arith, inl, inr,
}
use compute_markets.Prelude.Int.{ℤ, pos, ◌+ℤ◌, ◌-ℤ◌, ◌≤ℤ◌, sub_ℕ}
use compute_markets.Prelude.Hex.{to_hex}
use compute_markets.Receipts.{Libraries, commitment, verify_payload, decode_key}
use compute_markets.Verification.Challenge.{
  ComputeChallenge, ChallengeResponse, ChallengeRequest, ChallengeInput, ChallengeVerdict, or_else,
  challenge_fields, challenge_json, response_json, expected_check, parse_challenge, parse_response,
  solve_challenge, issue_challenge, time_checks, identity_checks, challenge_checks,
  verify_challenge,
}

-- A commitment that is expected, and not the empty text, is the one found.
abbrev pub Matches : Option String → String → Type 0
Matches expected found = (s : String) → expected ≡ some s → s ≢ "" → found ≡ s

-- What a response must meet besides its signature.
pub record Answers (clock : ℤ) (input : ChallengeInput) (c : ComputeChallenge)
    (r : ChallengeResponse) : Type 0 where
  pub challenge : r.challenge_id ≡ c.id
  pub job : r.job_id ≡ c.job_id
  pub machine : r.machine_id ≡ c.machine_id
  pub worker : r.worker ≡ c.worker
  pub result : r.result_hash ≡ input.expected_result_hash
  pub gpus : Matches input.expected_gpu_uuid_commitment r.gpu_uuid_commitment
  pub telemetry : Matches input.expected_telemetry_hash r.telemetry_hash
  pub not_early : pos c.issued_at -ℤ pos 2 ≤ℤ pos r.started_at
  pub forward : r.started_at ≤ r.finished_at
  pub unexpired : r.finished_at ≤ c.expires_at
  pub fast : sub_ℕ r.finished_at r.started_at ≤ℤ or_else input.maximum_seconds (pos 120)
  pub fresh : or_else input.now clock ≤ℤ pos (c.expires_at + 5)

expected_iff :
    (expected : Option String) (found reason : String)
    → Holds (expected_check expected found reason) ↔ Matches expected found
expected_iff none found reason = ((λ h s e. absurd (cc)), λ h. tt)
expected_iff (some s) found reason = elim (Bool-cases (str_eq s "")) [
  | inl empty ↦
      (rw empty (λ h t e full. absurd (full (cc ((eq_iff s "").0 empty, e)))), rw empty (λ h. tt))
  | inr full ↦ (
    rw full (λ h t e _. cc ((eq_iff found s).0 h.0, e)),
    rw full (λ h. ((eq_iff found s).1 (h s refl (λ e. cc ((eq_iff s "").1 e, full))), tt)),
  )
]

times_iff :
    (clock : ℤ) (input : ChallengeInput) (c : ComputeChallenge) (r : ChallengeResponse)
    → Holds (time_checks clock input c r) ↔ (
        (pos c.issued_at -ℤ pos 2 ≤ℤ pos r.started_at)
        × (r.started_at ≤ r.finished_at)
        × (r.finished_at ≤ c.expires_at)
        × (sub_ℕ r.finished_at r.started_at ≤ℤ or_else input.maximum_seconds (pos 120))
        × (or_else input.now clock ≤ℤ pos (c.expires_at + 5)))
unfolding time_checks
times_iff clock input c r = ground arith

identity_iff :
    (input : ChallengeInput) (c : ComputeChallenge) (r : ChallengeResponse) (signed : Bool)
    → Holds (identity_checks input c r signed) ↔ (
        (signed ≡ true)
        × (r.challenge_id ≡ c.id)
        × (r.job_id ≡ c.job_id)
        × (r.machine_id ≡ c.machine_id)
        × (r.worker ≡ c.worker)
        × (r.result_hash ≡ input.expected_result_hash))
unfolding identity_checks
identity_iff input c r signed = ground (
  arith,
  eq_iff r.challenge_id c.id,
  eq_iff r.job_id c.job_id,
  eq_iff r.machine_id c.machine_id,
  eq_iff r.worker c.worker,
  eq_iff r.result_hash input.expected_result_hash,
)

groups_iff :
    (clock : ℤ) (input : ChallengeInput) (c : ComputeChallenge) (r : ChallengeResponse)
    (signed : Bool)
    → Holds (challenge_checks clock input c r signed) ↔ (
        Holds (identity_checks input c r signed)
        × Matches input.expected_gpu_uuid_commitment r.gpu_uuid_commitment
        × Matches input.expected_telemetry_hash r.telemetry_hash
        × Holds (time_checks clock input c r))
unfolding challenge_checks
groups_iff clock input c r signed =
    let times = time_checks clock input c r in
    let telemetry = expected_check input.expected_telemetry_hash r.telemetry_hash _ in
    let gpus = expected_check input.expected_gpu_uuid_commitment r.gpu_uuid_commitment _ in
    let gpus_iff = expected_iff input.expected_gpu_uuid_commitment r.gpu_uuid_commitment _ in
    let telemetry_iff = expected_iff input.expected_telemetry_hash r.telemetry_hash _ in
    let one = Holds-append_iff (identity_checks input c r signed) (gpus ++ (telemetry ++ times)) in
    let two = Holds-append_iff gpus (telemetry ++ times) in
    let three = Holds-append_iff telemetry times in
    (
      (λ h.
          let (h1, r1) = one.0 h in
          let (h2, r2) = two.0 r1 in
          let (h3, h4) = three.0 r2 in (h1, gpus_iff.0 h2, telemetry_iff.0 h3, h4)),
      λ (h1, h2, h3, h4). one.1 (h1, two.1 (gpus_iff.1 h2, three.1 (telemetry_iff.1 h3, h4))),
    )

Answers-iff :
    (clock : ℤ) (input : ChallengeInput) (c : ComputeChallenge) (r : ChallengeResponse)
    (signed : Bool)
    → Holds (challenge_checks clock input c r signed) ↔ ((signed ≡ true) × Answers clock input c r)
Answers-iff clock input c r signed = (
  (λ h.
      let (h1, gpus, telemetry, h4) = (groups_iff clock input c r signed).0 h in
      let (ok_signed, challenge, job, machine, worker, result) =
        (identity_iff input c r signed).0 h1 in
      let (not_early, forward, unexpired, fast, fresh) = (times_iff clock input c r).0 h4 in
      (
        ok_signed,
        record {
          challenge = challenge;
          job = job;
          machine = machine;
          worker = worker;
          result = result;
          gpus = gpus;
          telemetry = telemetry;
          not_early = not_early;
          forward = forward;
          unexpired = unexpired;
          fast = fast;
          fresh = fresh;
        },
      )),
  λ (ok_signed, h). (groups_iff clock input c r signed).1 (
    (identity_iff input c r signed).1
        (ok_signed, h.challenge, h.job, h.machine, h.worker, h.result),
    h.gpus,
    h.telemetry,
    (times_iff clock input c r).1 (h.not_early, h.forward, h.unexpired, h.fast, h.fresh),
  ),
)

module _ (libraries : Libraries) where
  -- The schemas read the challenge and the response, and the verdict passes exactly when the
  -- worker that the challenge names signed the response and the response answers it: it names the
  -- challenge and its job, machine and worker, gives the expected result and commitments, starts
  -- no more than two seconds before the challenge was issued, does not end before it starts, ends
  -- by the challenge's expiry and within the time allowed, and is checked at most five seconds
  -- after the expiry.
  pub verify_challenge-Answers :
      (clock : ℤ) (input : ChallengeInput) (v : ChallengeVerdict)
      → verify_challenge libraries clock input ≡ ok v
      → (c : ComputeChallenge) × (r : ChallengeResponse) × (key : List ℕ) × (parse_challenge
            libraries input.challenge
          ≡ ok c)
        × (parse_response libraries input.response ≡ ok r)
        × (decode_key libraries c.worker ≡ ok key)
        × (commitment libraries (challenge_json c) ≡ ok v.challenge_commitment)
        × ((v.passed ≡ true) ↔ (
            (verify_payload libraries (response_json r) input.signature key ≡ true)
            × Answers clock input c r))
  unfolding verify_challenge
  verify_challenge-Answers clock input v h =
      bind_ok (parse_challenge libraries input.challenge) _ h λ c e_c h1.
        bind_ok (parse_response libraries input.response) _ h1 λ r e_r h2.
          bind_ok (decode_key libraries c.worker) _ h2 λ key e_key h3.
            bind_ok (commitment libraries (challenge_json c)) _ h3 λ hash e_hash h4.
              let signed = verify_payload libraries (response_json r) input.signature key in
              let checks = challenge_checks clock input c r signed in
              let result = ok-injective h4 in
              let none_missing = failures_of-empty_iff checks in
              let answers = Answers-iff clock input c r signed in
              (
                c,
                r,
                key,
                e_c,
                e_r,
                e_key,
                e_hash ∙ ap (λ w. ok w.challenge_commitment) result,
                (
                  (λ p. answers.0 (none_missing.0 (ap (λ w. w.passed) result ∙ p))),
                  λ p. sym (ap (λ w. w.passed) result) ∙ none_missing.1 (answers.1 p),
                ),
              )

  -- What an issued challenge promises.
  pub record IsIssued (clock : ℤ) (request : ChallengeRequest) (c : ComputeChallenge) : Type 0 where
    pub readable : parse_challenge libraries (challenge_json c) ≡ ok c
    pub job : c.job_id ≡ request.job_id
    pub machine : c.machine_id ≡ request.machine_id
    pub worker : c.worker ≡ request.worker
    pub issued : pos c.issued_at ≡ or_else request.now clock
    pub expires :
        pos c.expires_at ≡ or_else request.now clock +ℤ or_else request.ttl_seconds (pos 120)
    pub iterations : pos c.iterations ≡ or_else request.iterations (pos 100000)
    pub solvable : (1 ≤ c.iterations) × (c.iterations ≤ 10000000)

  issued :
      (clock : ℤ) (uuid seed : String) (request : ChallengeRequest) (c : ComputeChallenge)
      → parse_challenge libraries (
          challenge_fields uuid request.job_id request.machine_id request.worker seed
            (or_else request.iterations (pos 100000))
            (or_else request.now clock)
            (or_else request.now clock +ℤ or_else request.ttl_seconds (pos 120)))
        ≡ ok c
      → IsIssued clock request c
  unfolding parse_challenge challenge_json challenge_fields
  issued clock uuid seed request c h = ground arith

  -- An issued challenge is for the requested job, machine and worker, lasts from now for the
  -- requested time and has the requested number of rounds, from 1 to 10000000, with the defaults
  -- where nothing is requested; the verifier's schema reads it back unchanged; and the expected
  -- result is the solution of its seed and rounds.
  pub issue_challenge-IsIssued :
      (clock : ℤ) (uuid : String) (random : List ℕ) (request : ChallengeRequest)
      (c : ComputeChallenge) (expected : String)
      → issue_challenge libraries clock uuid random request ≡ ok (c, expected)
      → IsIssued clock request c × (expected ≡ solve_challenge libraries c.seed c.iterations)
  unfolding issue_challenge
  issue_challenge-IsIssued clock uuid random request c expected h =
      bind_ok (parse_challenge libraries _) _ h λ d e_d h1.
        let same = ok-injective h1 in
        (
          subst (IsIssued clock request) (ap (λ w. w.0) same)
              (issued clock uuid (to_hex random) request d e_d),
          cc same,
        )
