-- ===== src/Receipts.antt =====
-- packages/receipts/index.ts: canonical texts, commitments, signatures, and execution receipts.
-- What node:crypto, Buffer, bs58, canonicalize and the schema library's formats compute is an
-- argument, the record `Libraries`.
pub mod Receipt
pub mod Laws
use compute_markets.Prelude.{
  ℕ, String, Bool, true, false, List, [], ◌∷◌, ◌++◌, Option, none, some, not, ◌||◌, ◌==◌, length,
  Result, ok, err, ◌>>=◌, if◌then◌else◌,
}
use compute_markets.Json.{Json}

-- What `update` takes: `Uint8Array | string`.
pub data Content : Type 0 where
  bytes : List ℕ → Content
  text : String → Content

pub record Libraries : Type 0 where
  -- `canonicalize(value)`; `none` is `undefined`
  pub canonicalize : Json → Option String
  -- `createHash("sha256").update(value).digest("hex")`
  pub digest : Content → String
  -- `Buffer.from(text, "base64")`
  pub from_base64 : String → List ℕ
  -- `sign(null, Buffer.from(text), key).toString("base64")`, the key by its bytes
  pub sign : String → List ℕ → String
  -- `verify(null, Buffer.from(text), createPublicKey({ key, format: "der", type: "spki" }),
  -- signature)`; `none` where one of the two throws
  pub verify : String → List ℕ → List ℕ → Option Bool
  -- `bs58.decode(text)`; `none` where it throws
  pub from_base58 : String → Option (List ℕ)
  -- `z.string().uuid()`
  pub is_uuid : String → Bool

-- `Buffer.from("302a300506032b6570032100", "hex")`.
abbrev pub spki_prefix : List ℕ
spki_prefix = 0x30 ∷ 0x2a ∷ 0x30 ∷ 0x05 ∷ 0x06 ∷ 0x03 ∷ 0x2b ∷ 0x65 ∷ 0x70 ∷ 0x03 ∷ 0x21 ∷ 0x00 ∷ []

abbrev pub or_false : Option Bool → Bool
or_false none = false
or_false (some b) = b

module _ (libraries : Libraries) where
  open libraries use {canonicalize, digest, from_base64, sign, verify, from_base58}

  unfoldable pub canonical : Json → Result String
  canonical value = elim (canonicalize value) [
    | none ↦ err "Value cannot be canonicalized"
    | some result ↦ ok result
  ]

  unfoldable pub sha256 : Content → String
  sha256 value = digest value

  unfoldable pub commitment : Json → Result String
  commitment value = do text_of ← canonical value; ok (sha256 (text text_of))

  unfoldable pub sign_payload : Json → List ℕ → Result (Json × String)
  sign_payload payload key = do text_of ← canonical payload; ok (payload, sign text_of key)

  -- The `try` block; `none` is caught and gives `false`.
  unfoldable pub verify_payload : Json → String → List ℕ → Bool
  unfolding canonical
  verify_payload payload signature raw_public_key =
      if not (length raw_public_key == 32) || not (length (from_base64 signature) == 64)
      then false
      else elim (canonical payload) [
        | ok text_of ↦
            or_false (verify text_of (spki_prefix ++ raw_public_key) (from_base64 signature))
        | err _ ↦ false
      ]

  -- `bs58.decode(key)`, which throws on a text that is no base 58.
  unfoldable pub decode_key : String → Result (List ℕ)
  decode_key key = elim (from_base58 key) [ none ↦ err "Non-base58 character" | some raw ↦ ok raw ]
