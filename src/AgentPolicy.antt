-- ===== src/AgentPolicy.antt =====
-- packages/agent-policy/index.ts: the tree of allowed specification hashes. Digests are the bytes
-- of the library's hexadecimal text; the two maps are lists of entries with different keys, in the
-- order of insertion. `toLowerCase` acts on ASCII: a text with another letter is no hash, so it is
-- refused either way.
pub mod Pairs
pub mod Levels
pub mod Nodes
pub mod Maps
pub mod Paths
pub mod Joining
pub mod Rounds
pub mod Proofs
pub mod Allowed
use compute_markets.Prelude.{
  ℕ, zero, suc, ◌+◌, String, Bool, true, false, not, ◌&&◌, ◌||◌, ◌==◌, ltb, leb, List, [], ◌∷◌,
  ◌++◌, map, length, any, Option, none, some, Result, ok, err, require, str_eq, ◌>>=◌, is_empty,
  if◌then◌else◌,
}
use compute_markets.Prelude.Int.{ℤ, pos, negsuc, leb_ℤ}
use compute_markets.Prelude.Text.{codes, lower_code, same_codes, are_hash_codes}
use compute_markets.Prelude.Hex.{from_hex, to_hex, bytes_of_codes}
use compute_markets.Prelude.Sorting.{sort}
use compute_markets.Receipts.{Libraries, bytes, sha256}

abbrev pub Bytes : Type 0
Bytes = List ℕ

pub record SpecAllowlist : Type 0 where
  pub root : String
  pub proofs : List (String × List String)

-- `Buffer.compare`.
abbrev pub compare_bytes : Bytes → Bytes → ℤ
compare_bytes [] [] = pos 0
compare_bytes [] (b ∷ bs) = negsuc 0
compare_bytes (a ∷ xs) [] = pos 1
compare_bytes (a ∷ xs) (b ∷ bs) =
    let rest = compare_bytes xs bs in if ltb a b then negsuc 0 else if ltb b a then pos 1 else rest

abbrev pub ordered : Bytes → Bytes → Bytes
ordered left right =
    if leb_ℤ (compare_bytes left right) (pos 0) then left ++ right else right ++ left

unfoldable pub hash_pair : Libraries → Bytes → Bytes → Bytes
hash_pair libraries left right = from_hex (sha256 libraries (bytes (ordered left right)))

-- `value.toLowerCase()`, by its codes.
abbrev pub normalized : String → List ℕ
normalized value = map lower_code (codes value)

abbrev pub parse_normalized : List ℕ → Result Bytes
parse_normalized cs =
    if are_hash_codes cs
    then ok (bytes_of_codes cs)
    else err "Spec hashes must be 32-byte lowercase or uppercase hex strings"

unfoldable pub parse_hash : String → Result Bytes
parse_hash value = parse_normalized (normalized value)

-- `new Set(normalized).size !== normalized.length`.
abbrev pub has_repeat : List (List ℕ) → Bool
has_repeat [] = false
has_repeat (x ∷ xs) = any (same_codes x) xs || has_repeat xs

abbrev pub parse_all : List (List ℕ) → Result (List Bytes)
parse_all [] = ok []
parse_all (cs ∷ rest) = do leaf ← parse_normalized cs; leaves ← parse_all rest; ok (leaf ∷ leaves)

module _ {A : Type 0} where
  -- `Map.prototype.set`.
  abbrev pub set : String → A → List (String × A) → List (String × A)
  set key a [] = (key, a) ∷ []
  set key a ((k, b) ∷ entries) =
      let rest = set key a entries in if str_eq k key then (k, a) ∷ entries else (k, b) ∷ rest

  -- `Map.prototype.get`, and `otherwise` where the key is missing, which does not happen here.
  abbrev pub lookup : String → A → List (String × A) → A
  lookup key otherwise [] = otherwise
  lookup key otherwise ((k, b) ∷ entries) =
      let rest = lookup key otherwise entries in if str_eq k key then b else rest

-- The two maps.
pub record Trace : Type 0 where
  pub proofs : List (String × List Bytes)
  pub descendants : List (String × List String)

-- The loop that gives every leaf its entries.
unfoldable pub start : List Bytes → Trace → Trace
start [] t = t
start (leaf ∷ leaves) t = start leaves (record {
  proofs = set (to_hex leaf) [] t.proofs;
  descendants = set (to_hex leaf) (to_hex leaf ∷ []) t.descendants;
})

-- `for (const leaf of ids) proofs.get(leaf)!.push(sibling)`.
unfoldable pub push_sibling :
    List String → Bytes → List (String × List Bytes) → List (String × List Bytes)
push_sibling [] sibling proofs = proofs
push_sibling (id ∷ ids) sibling proofs =
    push_sibling ids sibling (set id (lookup id [] proofs ++ sibling ∷ []) proofs)

module _ (libraries : Libraries) where
  unfoldable pub join : Bytes → Bytes → Trace → Trace
  join left right t =
      let of_left = lookup (to_hex left) [] t.descendants in
      let of_right = lookup (to_hex right) [] t.descendants in
      record {
        proofs = push_sibling of_right left (push_sibling of_left right t.proofs);
        descendants =
            set (to_hex (hash_pair libraries left right)) (of_left ++ of_right) t.descendants;
      }

  -- One round of the outer loop: the next level, and the maps.
  unfoldable pub pair_up : List Bytes → Trace → List Bytes × Trace
  pair_up [] t = ([], t)
  pair_up (left ∷ []) t = (left ∷ [], t)
  pair_up (left ∷ right ∷ level) t =
      let rest = pair_up level (join left right t) in
      (hash_pair libraries left right ∷ rest.0, rest.1)

  -- `while (level.length > 1)`; a level is shorter than the one below, so as much fuel as there are
  -- leaves is enough (Levels).
  unfoldable pub climb : ℕ → List Bytes → Trace → List Bytes × Trace
  climb zero level t = (level, t)
  climb (suc fuel) level t =
      let up = pair_up level t in
      let above = climb fuel up.0 up.1 in if ltb 1 (length level) then above else (level, t)

  abbrev pub root_of : List Bytes × Trace → Result SpecAllowlist
  root_of ([], t) = err "Cannot read properties of undefined"
  root_of (root ∷ level, t) =
      ok (record { root = to_hex root; proofs = map (λ e. (e.0, map to_hex e.1)) t.proofs })

  abbrev pub tree_of : List Bytes → List Bytes × Trace
  tree_of leaves =
      climb (length leaves) leaves (start leaves (record { proofs = []; descendants = [] }))

  unfoldable pub build_spec_allowlist : List String → Result SpecAllowlist
  build_spec_allowlist spec_hashes = do
    filled ← require (not (is_empty spec_hashes)) "At least one spec hash is required"
    unique ←
        require (not (has_repeat (map normalized spec_hashes)))
          "Duplicate spec hashes are not allowed"
    leaves ← parse_all (map normalized spec_hashes)
    small ← require (leb (length leaves) 65536) "Spec allowlist is too large"
    root_of (tree_of (sort compare_bytes leaves))

  -- `for (const sibling of proof) node = hashPair(node, parseHash(sibling))`.
  unfoldable pub fold_proof : Bytes → List String → Result Bytes
  fold_proof node [] = ok node
  fold_proof node (sibling ∷ siblings) = do
    s ← parse_hash sibling
    fold_proof (hash_pair libraries node s) siblings

  abbrev pub fold_short : Bytes → List String → String → Bool → Result Bool
  fold_short node siblings root true = ok false
  fold_short node siblings root false = do
    top ← fold_proof node siblings
    expected ← parse_hash root
    ok (same_codes top expected)

  unfoldable pub verify_spec_proof : String → List String → String → Result Bool
  verify_spec_proof spec_hash siblings root = do
    node ← parse_hash spec_hash
    fold_short node siblings root (ltb 16 (length siblings))

unfoldable pub proof_bytes : List String → Result (List Bytes)
proof_bytes [] = ok []
proof_bytes (value ∷ values) = do b ← parse_hash value; bs ← proof_bytes values; ok (b ∷ bs)
