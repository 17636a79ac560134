-- ===== src/Receipts/Laws.antt =====
-- Signatures and receipts that were made by packages/receipts/index.ts are accepted by it.
use compute_markets.Prelude.{
  ℕ, ◌+◌, ◌≤◌, ◌≡◌, refl, sym, ap, String, true, List, length, ◌++◌, some, ok, ok-injective,
  bind_ok, leb, arith,
}
use compute_markets.Prelude.Int.{ℤ, pos, pos_part, neg_part}
use compute_markets.Prelude.Text.{units, is_hash, is_digest}
use compute_markets.Json.{Json}
use compute_markets.Json.Schema.{max_safe_integer}
use compute_markets.Receipts.{
  Libraries, Content, spki_prefix, canonical, sign_payload, verify_payload, commitment, sha256,
}
use compute_markets.Receipts.Receipt.{ExecutionReceipt, receipt_json, parse_receipt}

module _ (libraries : Libraries) where
  open libraries use {sign, verify, from_base64, digest, is_uuid}

  -- The two keys belong together: what one signs, the other verifies. Both keys and signatures have
  -- the lengths of Ed25519.
  pub record IsKeyPair (key public_key : List ℕ) : Type 0 where
    pub key_bytes : length public_key ≡ 32
    pub signature_bytes : (s : String) → length (from_base64 (sign s key)) ≡ 64
    pub verifies :
        (s : String) → verify s (spki_prefix ++ public_key) (from_base64 (sign s key)) ≡ some true

  pub verify_payload-sign_payload :
      (key public_key : List ℕ)
      → IsKeyPair key public_key
      → (payload : Json) (signed : Json × String) → sign_payload libraries payload key ≡ ok signed
      → (signed.0 ≡ payload) × (verify_payload libraries payload signed.1 public_key ≡ true)
  unfolding sign_payload verify_payload
  verify_payload-sign_payload key public_key pair payload signed h =
      bind_ok (canonical libraries payload) _ h λ text_of e h1.
        let same = ok-injective h1 in
        let made : signed.1 ≡ sign text_of key = sym (ap (λ s. s.1) same) in
        (
          sym (ap (λ s. s.0) same),
          rw (made, pair.key_bytes, pair.signature_bytes text_of, e, made, pair.verifies text_of)
              refl,
        )

  -- Every digest is written with 64 hexadecimal digits.
  abbrev pub WritesHashes : Type 0
  WritesHashes = (content : Content) → is_hash (digest content) ≡ true

  pub commitment-is_hash :
      WritesHashes
      → (value : Json) (hash : String) → commitment libraries value ≡ ok hash
      → is_hash hash ≡ true
  unfolding commitment sha256
  commitment-is_hash hashes value hash h =
      bind_ok (canonical libraries value) _ h λ text_of e h1. rw (sym (ok-injective h1)) (hashes _)

  -- The fields have the forms that the schema asks for.
  pub record IsReadable (p : ExecutionReceipt) : Type 0 where
    pub cluster : 1 ≤ units p.cluster
    pub program : 32 ≤ units p.program
    pub job : 32 ≤ units p.job_id
    pub provider : 32 ≤ units p.provider
    pub machine : 32 ≤ units p.machine_id
    pub worker : 32 ≤ units p.worker
    pub spec_hash : is_hash p.job_spec_hash ≡ true
    pub image : is_digest p.image_digest ≡ true
    pub inputs : is_hash p.input_root ≡ true
    pub outputs : is_hash p.output_root ≡ true
    pub start : p.start_timestamp ≤ max_safe_integer
    pub finish : p.finish_timestamp ≤ max_safe_integer
    pub exit : p.exit_code ≡ pos 0
    pub gpus : is_hash p.gpu_uuid_commitment ≡ true
    pub hardware : is_hash p.hardware_report_hash ≡ true
    pub telemetry : is_hash p.telemetry_hash ≡ true
    pub stdout : is_hash p.stdout_hash ≡ true
    pub stderr : is_hash p.stderr_hash ≡ true
    pub result : is_hash p.result_hash ≡ true
    pub nonce : is_uuid p.nonce ≡ true

  at_least : (n m : ℕ) → n ≤ m → leb n m ≡ true
  at_least n m h = ground arith

  exits : (z : ℤ) → z ≡ pos 0 → leb (pos_part z + neg_part z) max_safe_integer ≡ true
  exits z h = rw h refl

  pub parse_receipt-receipt_json :
      (p : ExecutionReceipt) → IsReadable p → parse_receipt libraries (receipt_json p) ≡ ok p
  unfolding parse_receipt receipt_json
  parse_receipt-receipt_json p h =
      rw
        (
          at_least 1 _ h.cluster,
          at_least 32 _ h.program,
          at_least 32 _ h.job,
          h.spec_hash,
          at_least 32 _ h.provider,
          at_least 32 _ h.machine,
          at_least 32 _ h.worker,
          h.image,
          h.inputs,
          h.outputs,
          at_least 0 p.start_timestamp (omega arith),
          at_least _ max_safe_integer h.start,
          at_least 0 p.finish_timestamp (omega arith),
          at_least _ max_safe_integer h.finish,
          exits p.exit_code h.exit,
          h.gpus,
          h.hardware,
          h.telemetry,
          h.stdout,
          h.stderr,
          h.result,
          h.nonce,
        )
        refl
