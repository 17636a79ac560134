-- ===== src/Tests/Accepted.antt =====
-- A receipt of the sample job before the verifier. Base 64 is replaced by a code that writes a number
-- in unary.
use compute_markets.Prelude.{ℕ, zero, suc, String, List, [], ◌∷◌, str_eq, if◌then◌else◌}
use compute_markets.Json.{Json}
use compute_markets.Receipts.{Libraries}
use compute_markets.Provider.{WorkerJob, Services}
use compute_markets.Tests.Working.{node}
use compute_markets.Samples.{sample_libraries, sample_hash, sample_key, zeros}

abbrev unary : ℕ → String → String
unary zero s = String.◌∷◌ "," s
unary (suc n) s = String.◌∷◌ "1" (unary n s)

abbrev encode : List ℕ → String
encode [] = String.[]
encode (n ∷ ns) = unary n (encode ns)

abbrev bump : List ℕ → List ℕ
bump [] = []
bump (n ∷ ns) = suc n ∷ ns

abbrev decode : String → List ℕ
decode String.[] = []
decode (String.◌∷◌ c s) =
    let rest = decode s in if str_eq (String.◌∷◌ c String.[]) "," then zero ∷ rest else bump rest

abbrev signing_libraries : Libraries
signing_libraries = record sample_libraries {
  from_base64 = decode;
  sign = λ s key. encode (zeros 64);
}

abbrev worker : Services (Unit {0})
worker = record (node 4) { to_base64 = encode }

abbrev account : WorkerJob
account = record {
  worker = sample_key;
  provider = sample_key;
  machine = sample_key;
  spec_hash = sample_hash;
  state = 4;
}
