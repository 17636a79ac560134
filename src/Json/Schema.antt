-- ===== src/Json/Schema.antt =====
-- What the schemas of the program check: `z.strictObject`, `z.string`, `z.number().int()`,
-- `z.array`, `z.literal`, `z.enum` and `.optional()`. A value that does not fit is refused with
-- the place of its first issue.
use compute_markets.Prelude.{
  ℕ, ◌+◌, Bool, true, ◌&&◌, String, List, [], ◌∷◌, Option, none, some, length, includes, str_eq,
  leb, Result, ok, err, require, ◌>>=◌, ◌>>◌, if◌then◌else◌,
}
use compute_markets.Prelude.Int.{ℤ, pos, pos_part, neg_part}
use compute_markets.Prelude.Text.{units}
use compute_markets.Json.{Json, bool, num, str, arr, obj, Items, nil, cons, Fields, end, field, get}

abbrev pub keys_within : List String → Fields → Bool
keys_within keys end = true
keys_within keys (field k v fs) = includes keys k && keys_within keys fs

-- An object with no other keys than these.
abbrev pub strict_object : List String → Json → Result Fields
strict_object keys (obj fs) = if keys_within keys fs then ok fs else err "Unrecognized key"
strict_object keys _ = err "Invalid input: expected object"

module _ {A : Type 0} where
  abbrev pub required : String → (Json → Result A) → Fields → Result A
  required key parse fs = elim (get key fs) [ none ↦ err key | some v ↦ parse v ]

  abbrev pub optional : String → (Json → Result A) → Fields → Result (Option A)
  optional key parse fs = elim (get key fs) [
    | none ↦ ok none
    | some v ↦ do a ← parse v; ok (some a)
  ]

  abbrev pub parse_items : (Json → Result A) → Items → Result (List A)
  parse_items parse nil = ok []
  parse_items parse (cons j js) = do a ← parse j; rest ← parse_items parse js; ok (a ∷ rest)

  -- `z.array(…).min(lo).max(hi)`.
  abbrev pub array : (Json → Result A) → ℕ → ℕ → Json → Result (List A)
  array parse lo hi (arr js) = do
    xs ← parse_items parse js
    require (leb lo (length xs) && leb (length xs) hi) "Invalid array length"
    ok xs
  array parse lo hi _ = err "Invalid input: expected array"

-- `z.string()` with a further test.
abbrev pub string : (String → Bool) → Json → Result String
string test (str s) = if test s then ok s else err "Invalid string"
string test _ = err "Invalid input: expected string"

-- `.min(lo).max(hi)` on a string.
abbrev pub units_within : ℕ → ℕ → String → Bool
units_within lo hi s = leb lo (units s) && leb (units s) hi

-- `z.number().int().min(lo).max(hi)`; every bound of the program is at least 0.
abbrev pub int_within : ℕ → ℕ → Json → Result ℕ
int_within lo hi (num (pos n)) =
    if leb lo n && leb n hi then ok n else err "Invalid number: out of range"
int_within lo hi _ = err "Invalid input: expected int"

abbrev pub boolean : Json → Result Bool
boolean (bool b) = ok b
boolean _ = err "Invalid input: expected boolean"

-- `z.literal(s)`.
abbrev pub literal : String → Json → Result (Unit {0})
literal s (str t) = if str_eq s t then ok tt else err "Invalid input: expected literal"
literal s _ = err "Invalid input: expected literal"

abbrev pub max_safe_integer : ℕ
max_safe_integer = 9007199254740991

-- `z.number().int()`: an integer that a JavaScript number holds exactly.
abbrev pub integer : Json → Result ℤ
integer (num z) =
    if leb (pos_part z + neg_part z) max_safe_integer
    then ok z
    else err "Invalid input: expected int"
integer _ = err "Invalid input: expected int"
