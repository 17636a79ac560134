-- ===== src/Prelude/Text.antt =====
-- Texts as the source reads them: JavaScript lengths, the character classes of its regular
-- expressions, and decimal printing.
use Prim.Native.Char.{code}
use Prim.Native.String
use Prim.Native.String.{String}
use Prim.Native.Nat.{ℕ, zero, suc, ◌+◌, ◌/◌, ◌%◌}
use mathlib.Core.Bool.{Bool, true, false, ◌&&◌, ◌||◌}
use mathlib.Core.Option.{Option, none, some}
use mathlib.Core.List.{List, [], ◌∷◌}
use compute_markets.Prelude.Tests.{ltb, leb, ◌==◌, if◌then◌else◌}
use compute_markets.Prelude.Lists.{length, all}

-- The code points of a text. `String` has its own `[]` and `∷`.
abbrev pub codes : String → List ℕ
codes String.[] = []
codes (String.◌∷◌ c s) = code c ∷ codes s

-- `s.length`: UTF-16 code units, two for a code point above 0xffff.
abbrev units_of : List ℕ → ℕ
units_of [] = 0
units_of (c ∷ cs) = (if ltb c 0x10000 then 1 else 2) + units_of cs

abbrev pub units : String → ℕ
units s = units_of (codes s)

abbrev pub is_digit : ℕ → Bool
is_digit c = leb b'0' c && leb c b'9'

abbrev pub is_lower : ℕ → Bool
is_lower c = leb b'a' c && leb c b'z'

abbrev pub is_upper : ℕ → Bool
is_upper c = leb b'A' c && leb c b'Z'

-- `[a-f0-9]`.
abbrev pub is_hex : ℕ → Bool
is_hex c = is_digit c || (leb b'a' c && leb c b'f')

-- The lower-case form of an ASCII letter.
abbrev pub lower_code : ℕ → ℕ
lower_code c = if is_upper c then c + 32 else c

abbrev pub same_codes : List ℕ → List ℕ → Bool
same_codes [] [] = true
same_codes (c ∷ cs) (d ∷ ds) = (c == d) && same_codes cs ds
same_codes _ _ = false

abbrev pub are_hash_codes : List ℕ → Bool
are_hash_codes cs = (length cs == 64) && all is_hex cs

-- `/^[a-f0-9]{64}$/`.
unfoldable pub is_hash : String → Bool
is_hash s = (length (codes s) == 64) && all is_hex (codes s)

-- The rest of a text behind a prefix that it must have.
abbrev strip : List ℕ → List ℕ → Option (List ℕ)
strip [] cs = some cs
strip (p ∷ ps) [] = none
strip (p ∷ ps) (c ∷ cs) = let rest = strip ps cs in if p == c then rest else none

-- `/^sha256:[a-f0-9]{64}$/`.
unfoldable pub is_digest : String → Bool
is_digest s = elim (strip (codes "sha256:") (codes s)) [
  | none ↦ false
  | some cs ↦ (length cs == 64) && all is_hex cs
]

-- The longest front part in a character class, and the rest.
abbrev pub span : (ℕ → Bool) → List ℕ → List ℕ × List ℕ
span p [] = ([], [])
span p (c ∷ cs) = let rest = span p cs in if p c then (c ∷ rest.0, rest.1) else ([], c ∷ cs)

-- `[a-z0-9.-]` and `[a-z0-9._/-]`.
abbrev is_host_code : ℕ → Bool
is_host_code c = is_lower c || is_digit c || c == b'.' || c == b'-'

abbrev is_path_code : ℕ → Bool
is_path_code c = is_host_code c || c == b'_' || c == b'/'

-- `\/[a-z0-9._/-]+$`.
abbrev is_image_path : List ℕ → Bool
is_image_path [] = false
is_image_path (c ∷ []) = false
is_image_path (c ∷ d ∷ cs) = c == b'/' && all is_path_code (d ∷ cs)

abbrev after_port : List ℕ × List ℕ → Bool
after_port ([], rest) = false
after_port (d ∷ ds, rest) = is_image_path rest

-- `(?::[0-9]+)?\/[a-z0-9._/-]+$`.
abbrev after_host : List ℕ → Bool
after_host [] = false
after_host (c ∷ cs) = if c == b':' then after_port (span is_digit cs) else is_image_path (c ∷ cs)

abbrev from_host : List ℕ × List ℕ → Bool
from_host ([], rest) = false
from_host (h ∷ hs, rest) = after_host rest

-- `/^[a-z0-9.-]+(?::[0-9]+)?\/[a-z0-9._/-]+$/`. The classes do not meet what may follow them, so
-- the longest match is the only one.
unfoldable pub is_repository : String → Bool
is_repository s = from_host (span is_host_code (codes s))

abbrev is_key_code : ℕ → Bool
is_key_code c = is_lower c || is_upper c || is_digit c || c == b'/' || c == b'_' || c == b'-'

abbrev is_nonempty : List ℕ → Bool
is_nonempty [] = false
is_nonempty (c ∷ cs) = true

-- `/^[a-zA-Z0-9/_-]+$/`.
unfoldable pub is_input_key : String → Bool
is_input_key s = is_nonempty (codes s) && all is_key_code (codes s)

digit : ℕ → String
digit zero = "0"
digit (suc zero) = "1"
digit (suc (suc zero)) = "2"
digit (suc (suc (suc zero))) = "3"
digit (suc (suc (suc (suc zero)))) = "4"
digit (suc (suc (suc (suc (suc zero))))) = "5"
digit (suc (suc (suc (suc (suc (suc zero)))))) = "6"
digit (suc (suc (suc (suc (suc (suc (suc zero))))))) = "7"
digit (suc (suc (suc (suc (suc (suc (suc (suc zero)))))))) = "8"
digit _ = "9"

decimal_from : ℕ → ℕ → String → String
decimal_from zero n printed = printed
decimal_from (suc fuel) n printed =
    let longer = String.◌++◌ (digit (n % 10)) printed in
    let rest = decimal_from fuel (n / 10) longer in if ltb n 10 then longer else rest

-- `String(n)`. A number has fewer digits than its value and one more.
unfoldable pub decimal : ℕ → String
unfolding digit decimal_from
decimal n = decimal_from (n + 1) n ""
