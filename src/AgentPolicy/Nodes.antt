-- ===== src/AgentPolicy/Nodes.antt =====
-- The nodes of the allowlist tree as texts.
use Prim.Native.Char.{Char, code}
use Prim.Native.String.{◌++◌ as text_append}
use Prim.Native.String.append
use compute_markets.Prelude.{
  ℕ, zero, suc, ◌+◌, ◌*◌, ◌/◌, ◌%◌, ◌-◌, ◌≤◌, ◌≡◌, refl, sym, ap, ◌∙◌, String, Bool, true, ◌&&◌,
  ◌==◌, List, [], ◌∷◌, map, length, all, some, ok, ok-injective, err_not_ok, All, leb, Bool-cases,
  inl, inr, arith,
}
use compute_markets.Prelude.Text.{codes, is_hex, lower_code, are_hash_codes, is_hash}
use compute_markets.Prelude.Hex.{hex_value, hex_digit, bytes_of_codes, from_hex, to_hex}
use compute_markets.Receipts.{Libraries, bytes, sha256}
use compute_markets.Receipts.Laws.{WritesHashes}
use compute_markets.AgentPolicy.{Bytes, ordered, hash_pair, parse_normalized, parse_hash}

abbrev pub IsNode : Bytes → Type 0
IsNode b = (length b ≡ 32) × All (λ x. suc x ≤ 256) b

-- A digit is read back from its text.
record IsDigit (n : ℕ) (s : String) : Type 0 where
  digit : ℕ
  printed : codes (text_append (hex_digit n) s) ≡ digit ∷ codes s
  hexadecimal : is_hex digit ≡ true
  lower : lower_code digit ≡ digit
  value : hex_value digit ≡ some n

abbrev found :
    (n c : ℕ) (s : String)
    → codes (text_append (hex_digit n) s) ≡ c ∷ codes s
    → is_hex c ≡ true
    → lower_code c ≡ c
    → hex_value c ≡ some n
    → IsDigit n s
found n c s p h l v = record { digit = c; printed = p; hexadecimal = h; lower = l; value = v }

printed_code :
    (c : Char) (s : String) → codes (text_append (String.◌∷◌ c String.[]) s) ≡ code c ∷ codes s
printed_code c s = ap codes (append.cons c String.[] s) ∙ ap (λ t. code c ∷ codes t) (append.nil s)

digit-IsDigit : (n : ℕ) (s : String) → suc n ≤ 16 → IsDigit n s
digit-IsDigit zero s h = found 0 48 s (printed_code "0" s) refl refl refl
digit-IsDigit (suc zero) s h = found 1 49 s (printed_code "1" s) refl refl refl
digit-IsDigit (suc (suc zero)) s h = found 2 50 s (printed_code "2" s) refl refl refl
digit-IsDigit (suc (suc (suc zero))) s h = found 3 51 s (printed_code "3" s) refl refl refl
digit-IsDigit (suc (suc (suc (suc zero)))) s h = found 4 52 s (printed_code "4" s) refl refl refl
digit-IsDigit (suc (suc (suc (suc (suc zero))))) s h =
    found 5 53 s (printed_code "5" s) refl refl refl
digit-IsDigit (suc (suc (suc (suc (suc (suc zero)))))) s h =
    found 6 54 s (printed_code "6" s) refl refl refl
digit-IsDigit (suc (suc (suc (suc (suc (suc (suc zero))))))) s h =
    found 7 55 s (printed_code "7" s) refl refl refl
digit-IsDigit (suc (suc (suc (suc (suc (suc (suc (suc n)))))))) s h = upper n h
  where
    upper :
        (n : ℕ)
        → suc (suc (suc (suc (suc (suc (suc (suc (suc n)))))))) ≤ 16
        → IsDigit (suc (suc (suc (suc (suc (suc (suc (suc n)))))))) s
    upper zero h = found 8 56 s (printed_code "8" s) refl refl refl
    upper (suc zero) h = found 9 57 s (printed_code "9" s) refl refl refl
    upper (suc (suc zero)) h = found 10 97 s (printed_code "a" s) refl refl refl
    upper (suc (suc (suc zero))) h = found 11 98 s (printed_code "b" s) refl refl refl
    upper (suc (suc (suc (suc zero)))) h = found 12 99 s (printed_code "c" s) refl refl refl
    upper (suc (suc (suc (suc (suc zero))))) h = found 13 100 s (printed_code "d" s) refl refl refl
    upper (suc (suc (suc (suc (suc (suc zero)))))) h =
        found 14 101 s (printed_code "e" s) refl refl refl
    upper (suc (suc (suc (suc (suc (suc (suc zero))))))) h =
        found 15 102 s (printed_code "f" s) refl refl refl
    upper (suc (suc (suc (suc (suc (suc (suc (suc n)))))))) h = absurd (omega arith)

-- The text of some bytes.
record IsPrinted (b : Bytes) : Type 0 where
  long : length (codes (to_hex b)) ≡ 2 * length b
  hexadecimal : all is_hex (codes (to_hex b)) ≡ true
  lower : map lower_code (codes (to_hex b)) ≡ codes (to_hex b)
  back : bytes_of_codes (codes (to_hex b)) ≡ b

to_hex-IsPrinted : (b : Bytes) → All (λ x. suc x ≤ 256) b → IsPrinted b
unfolding to_hex
to_hex-IsPrinted [] h = record { long = refl; hexadecimal = refl; lower = refl; back = refl }
to_hex-IsPrinted (x ∷ xs) (here, later) =
    let rest = to_hex-IsPrinted xs later in
    let d = digit-IsDigit (x % 16) (to_hex xs) (omega arith) in
    let c =
      digit-IsDigit (x / 16 % 16) (text_append (hex_digit (x % 16)) (to_hex xs)) (omega arith) in
    let value : 16 * (x / 16 % 16) + x % 16 ≡ x = omega (arith, here) in
    record {
      long = rw (c.printed, d.printed) (omega (arith, rest.long));
      hexadecimal = rw (c.printed, d.printed, c.hexadecimal, d.hexadecimal, rest.hexadecimal) refl;
      lower = rw (c.printed, d.printed, c.lower, d.lower, rest.lower) refl;
      back = rw (c.printed, d.printed, c.value, d.value, rest.back, value) refl;
    }

pub parse_hash-to_hex : (b : Bytes) → IsNode b → parse_hash (to_hex b) ≡ ok b
unfolding parse_hash
parse_hash-to_hex b (long, small) =
    let printed = to_hex-IsPrinted b small in
    rw (printed.lower, printed.hexadecimal, printed.long, long, printed.back) refl

pub to_hex-injective : (a b : Bytes) → IsNode a → IsNode b → to_hex a ≡ to_hex b → a ≡ b
to_hex-injective a b h k e =
    ok-injective (sym (parse_hash-to_hex a h) ∙ ap parse_hash e ∙ parse_hash-to_hex b k)

valued : (c : ℕ) → is_hex c ≡ true → (v : ℕ) × (hex_value c ≡ some v) × (suc v ≤ 16)
valued c h = elim (Bool-cases (leb 48 c && leb c 57)) [
  | inl decimal ↦ (c - 48, ground arith, ground arith)
  | inr letter ↦ (c - 87, ground arith, ground arith)
]

both : (a b : Bool) → (a && b) ≡ true → (a ≡ true) × (b ≡ true)
both a b h = ground arith

same : (n m : ℕ) → (n == m) ≡ true → n ≡ m
same n m h = ground arith

-- The bytes of hexadecimal digits.
read-IsNode :
    (n : ℕ) (cs : List ℕ)
    → length cs ≡ 2 * n
    → all is_hex cs ≡ true
    → (length (bytes_of_codes cs) ≡ n) × All (λ x. suc x ≤ 256) (bytes_of_codes cs)
read-IsNode zero [] e h = (refl, tt)
read-IsNode (suc n) [] e h = absurd (omega arith)
read-IsNode n (c ∷ []) e h = absurd (omega arith)
read-IsNode zero (c ∷ d ∷ cs) e h = absurd (omega arith)
read-IsNode (suc n) (c ∷ d ∷ cs) e h =
    let (v, e_v, small_v) = valued c (ground arith) in
    let (w, e_w, small_w) = valued d (ground arith) in
    let (long, small) = read-IsNode n cs (omega arith) (ground arith) in
    rw (e_v, e_w) (ap suc long, (omega arith, small))

-- A text that is read is a node, and the lower case of the text is the node's own.
pub parse_normalized-IsNode : (cs : List ℕ) (b : Bytes) → parse_normalized cs ≡ ok b → IsNode b
parse_normalized-IsNode cs b h = elim (Bool-cases (are_hash_codes cs)) [
  | inl good ↦
      let (long, digits) = both _ _ good in
      rw (sym (ok-injective (rw good at h))) (read-IsNode 32 cs (same _ _ long) digits)
  | inr bad ↦ absurd (err_not_ok (rw bad at h))
]

pub hash_pair-IsNode :
    (libraries : Libraries)
    → WritesHashes libraries
    → (left right : Bytes) → IsNode (hash_pair libraries left right)
unfolding hash_pair from_hex sha256 is_hash
hash_pair-IsNode libraries hashes left right =
    let h = hashes (bytes (ordered left right)) in
    let (long, digits) = both _ _ h in
    read-IsNode 32 (codes (libraries.digest (bytes (ordered left right)))) (same _ _ long) digits
