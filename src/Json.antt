-- ===== src/Json.antt =====
-- JSON values as `JSON.parse` and the program's objects give them, and the schema checks of the
-- validation library that the program uses on them.
pub mod Schema
use compute_markets.Prelude.{
  ℕ, String, List, [], ◌∷◌, Bool, Option, none, some, str_eq, if◌then◌else◌,
}
use compute_markets.Prelude.Int.{ℤ}

-- `fraction` is a number that is no integer, by its printed form.
mutual
  pub data Json : Type 0 where
    null : Json
    bool : Bool → Json
    num : ℤ → Json
    fraction : String → Json
    str : String → Json
    arr : Items → Json
    obj : Fields → Json

  pub data Items : Type 0 where
    nil : Items
    cons : Json → Items → Items

  pub data Fields : Type 0 where
    end : Fields
    field : String → Json → Fields → Fields

abbrev pub items : List Json → Items
items [] = nil
items (j ∷ js) = cons j (items js)

abbrev pub strings : List String → Items
strings [] = nil
strings (s ∷ ss) = cons (str s) (strings ss)

-- `object[key]`; `none` is `undefined`.
abbrev pub get : String → Fields → Option Json
get key end = none
get key (field k v fs) = let rest = get key fs in if str_eq k key then some v else rest

-- An optional property, left out where it is `undefined`.
abbrev pub field? : String → Option Json → Fields → Fields
field? key none fs = fs
field? key (some v) fs = field key v fs
