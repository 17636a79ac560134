-- ===== src/Verification/Attestation/Laws.antt =====
-- Which attestation reports pass.
use compute_markets.Prelude.{
  ◌≡◌, ◌↔◌, refl, subst, String, true, List, [], ◌∷◌, Option, none, some, ok, ok-injective, bind_ok,
  failures_of-empty_iff, Holds, Holds-append_iff, All, eq_iff, arith,
}
use compute_markets.Prelude.Int.{pos, eqb_ℤ_iff}
use compute_markets.Json.{Json, null, bool, num, fraction, str, arr, obj, Fields, get}
use compute_markets.Receipts.{Libraries, commitment}
use compute_markets.Verification.Attestation.{
  NvidiaAttestation, AttestationVerdict, parse_attestation, is_lowered, is_text, is_true,
  nonce_check, claim_checks, claims_checks, attestation_checks, validate_nvidia_attestation,
}

-- A claim of a GPU whose report was made for the nonce, with secure boot and without debugging.
pub record IsGenuine (nonce : String) (claim : Fields) : Type 0 where
  pub device : get "x-nvidia-device-type" claim ≡ some (str "gpu")
  pub matched : get "x-nvidia-gpu-attestation-report-nonce-match" claim ≡ some (bool true)
  pub secure_boot : get "secboot" claim ≡ some (bool true)
  pub no_debug : get "dbgstat" claim ≡ some (str "disabled")
  pub nonce_text : (s : String) → get "nonce" claim ≡ some (str s) → is_lowered nonce s ≡ true

is_text_iff : (s : String) (value : Option Json) → (is_text s value ≡ true) ↔ (value ≡ some (str s))
is_text_iff s none = ground arith
is_text_iff s (some (str t)) = ground (arith, eq_iff t s)
is_text_iff s (some null) = ground arith
is_text_iff s (some (bool b)) = ground arith
is_text_iff s (some (num n)) = ground arith
is_text_iff s (some (fraction f)) = ground arith
is_text_iff s (some (arr js)) = ground arith
is_text_iff s (some (obj fs)) = ground arith

is_true_iff : (value : Option Json) → (is_true value ≡ true) ↔ (value ≡ some (bool true))
is_true_iff value = ground arith

nonce_iff :
    (nonce : String) (value : Option Json)
    → Holds (nonce_check nonce value)
      ↔ ((s : String) → value ≡ some (str s) → is_lowered nonce s ≡ true)
nonce_iff nonce none = ((λ h s e. absurd (cc)), λ h. tt)
nonce_iff nonce (some (str t)) = ((λ h s e. cc (h.0, e)), λ h. (h t refl, tt))
nonce_iff nonce (some null) = ((λ h s e. absurd (cc)), λ h. tt)
nonce_iff nonce (some (bool b)) = ((λ h s e. absurd (cc)), λ h. tt)
nonce_iff nonce (some (num n)) = ((λ h s e. absurd (cc)), λ h. tt)
nonce_iff nonce (some (fraction f)) = ((λ h s e. absurd (cc)), λ h. tt)
nonce_iff nonce (some (arr js)) = ((λ h s e. absurd (cc)), λ h. tt)
nonce_iff nonce (some (obj fs)) = ((λ h s e. absurd (cc)), λ h. tt)

IsGenuine-iff :
    (nonce : String) (claim : Fields) → Holds (claim_checks nonce claim) ↔ IsGenuine nonce claim
unfolding claim_checks
IsGenuine-iff nonce claim =
    let device = is_text_iff "gpu" (get "x-nvidia-device-type" claim) in
    let matched = is_true_iff (get "x-nvidia-gpu-attestation-report-nonce-match" claim) in
    let secure = is_true_iff (get "secboot" claim) in
    let debugging = is_text_iff "disabled" (get "dbgstat" claim) in
    let of_nonce = nonce_iff nonce (get "nonce" claim) in
    (
      (λ (h1, (h2, (h3, (h4, h5)))). record {
        device = device.0 h1;
        matched = matched.0 h2;
        secure_boot = secure.0 h3;
        no_debug = debugging.0 h4;
        nonce_text = of_nonce.0 h5;
      }),
      λ h. (
        device.1 h.device,
        (
          matched.1 h.matched,
          (secure.1 h.secure_boot, (debugging.1 h.no_debug, of_nonce.1 h.nonce_text)),
        ),
      ),
    )

each-IsGenuine_iff :
    (nonce : String) (claims : List Fields)
    → Holds (claims_checks nonce claims) ↔ All (IsGenuine nonce) claims
unfolding claims_checks
each-IsGenuine_iff nonce [] = ((λ h. tt), λ h. tt)
each-IsGenuine_iff nonce (claim ∷ claims) =
    let split = Holds-append_iff (claim_checks nonce claim) (claims_checks nonce claims) in
    let here = IsGenuine-iff nonce claim in
    let later = each-IsGenuine_iff nonce claims in
    (
      (λ h. let (h1, h2) = split.0 h in (here.0 h1, later.0 h2)),
      λ (h1, h2). split.1 (here.1 h1, later.1 h2),
    )

IsGenuine-report_iff :
    (nonce : String) (a : NvidiaAttestation)
    → Holds (attestation_checks nonce a)
      ↔ ((a.result_code ≡ pos 0) × All (IsGenuine nonce) a.claims)
unfolding attestation_checks
IsGenuine-report_iff nonce a =
    let code = eqb_ℤ_iff a.result_code (pos 0) in
    let each = each-IsGenuine_iff nonce a.claims in
    ((λ (h, hs). (code.0 h, each.0 hs)), λ (h, hs). (code.1 h, each.1 hs))

module _ (libraries : Libraries) where
  -- A report that gets a verdict is read by the schema, its evidence hash commits to the detached
  -- token, and the verdict passes exactly when the tool's result code is 0 and every claim is of a
  -- GPU, matched to the nonce, with secure boot on, debugging off, and its own nonce, if it is a
  -- text, equal to the given one.
  pub validate_nvidia_attestation-IsGenuine :
      (raw : Json) (nonce : String) (v : AttestationVerdict)
      → validate_nvidia_attestation libraries raw nonce ≡ ok v
      → (parse_attestation raw ≡ ok v.attestation)
        × (commitment libraries v.attestation.detached_eat ≡ ok v.evidence_hash)
        × ((v.passed ≡ true)
            ↔ ((v.attestation.result_code ≡ pos 0) × All (IsGenuine nonce) v.attestation.claims))
  unfolding validate_nvidia_attestation
  validate_nvidia_attestation-IsGenuine raw nonce v h =
      bind_ok (parse_attestation raw) _ h λ a e_a h1.
        bind_ok (commitment libraries a.detached_eat) _ h1 λ evidence e_e h2.
          bind_ok (commitment libraries _) _ h2 λ claims e_c h3.
            let missing = failures_of-empty_iff (attestation_checks nonce a) in
            let genuine = IsGenuine-report_iff nonce a in
            subst (Genuine raw nonce) (ok-injective h3)
              (e_a, e_e, ((λ p. genuine.0 (missing.0 p)), λ p. missing.1 (genuine.1 p)))
    where
      Genuine : Json → String → AttestationVerdict → Type 0
      Genuine raw nonce v =
          (parse_attestation raw ≡ ok v.attestation)
          × (commitment libraries v.attestation.detached_eat ≡ ok v.evidence_hash)
          × ((v.passed ≡ true)
              ↔ ((v.attestation.result_code ≡ pos 0) × All (IsGenuine nonce) v.attestation.claims))
