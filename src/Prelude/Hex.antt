-- ===== src/Prelude/Hex.antt =====
-- Bytes as hexadecimal text, and numbers as bytes: `Buffer.from(text, "hex")`, `toString("hex")`
-- and `writeBigUInt64BE`.
use Prim.Native.Nat.{ℕ, zero, suc, ◌+◌, ◌-◌, ◌*◌, ◌/◌, ◌%◌, ◌^◌}
use Prim.Native.String.{String, ◌++◌}
use mathlib.Core.Path.{◌≡◌, refl}
use mathlib.Core.Bool.{◌&&◌}
use mathlib.Core.Option.{Option, none, some}
use mathlib.Core.List.{List, [], ◌∷◌}
use compute_markets.Prelude.Tests.{leb, if◌then◌else◌}
use compute_markets.Prelude.Lists.{get_elem?}
use compute_markets.Prelude.Text.{codes}

abbrev pub hex_value : ℕ → Option ℕ
hex_value c =
    if leb 48 c && leb c 57
    then some (c - 48)
    else if leb 97 c && leb c 102
    then some (c - 87)
    else if leb 65 c && leb c 70
    then some (c - 55)
    else none

abbrev hex_pair : Option ℕ → Option ℕ → List ℕ → List ℕ
hex_pair (some a) (some b) rest = (16 * a + b) ∷ rest
hex_pair _ _ rest = []

-- Up to the first pair that is no two hexadecimal digits.
abbrev pub bytes_of_codes : List ℕ → List ℕ
bytes_of_codes [] = []
bytes_of_codes (c ∷ []) = []
bytes_of_codes (c ∷ d ∷ cs) = hex_pair (hex_value c) (hex_value d) (bytes_of_codes cs)

unfoldable pub from_hex : String → List ℕ
from_hex s = bytes_of_codes (codes s)

abbrev hex_digits : List String
hex_digits =
    "0" ∷ "1" ∷ "2" ∷ "3" ∷ "4" ∷ "5" ∷ "6" ∷ "7" ∷ "8" ∷ "9" ∷ "a" ∷ "b" ∷ "c" ∷ "d" ∷ "e" ∷ "f"
    ∷ []

abbrev pub hex_digit : ℕ → String
hex_digit n = elim (get_elem? hex_digits n) [ none ↦ "" | some d ↦ d ]

unfoldable pub to_hex : List ℕ → String
to_hex [] = ""
to_hex (b ∷ bs) = hex_digit (b / 16 % 16) ++ hex_digit (b % 16) ++ to_hex bs

-- The `n` lowest bytes of a number, the highest first.
unfoldable pub big_endian : ℕ → ℕ → List ℕ
big_endian zero x = []
big_endian (suc n) x = (x / 256 ^ n % 256) ∷ big_endian n x

sample_hex : to_hex (from_hex "00ff1aB9") ≡ "00ff1ab9"
unfolding from_hex to_hex
sample_hex = refl

sample_counter : big_endian 8 258 ≡ 0 ∷ 0 ∷ 0 ∷ 0 ∷ 0 ∷ 0 ∷ 1 ∷ 2 ∷ []
unfolding big_endian
sample_counter = refl
