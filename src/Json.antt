-- ===== src/Json.antt =====
-- serde_json's `Value`, as the code reads it: `get`, `as_str`, `as_u64`, `as_bool`.
use edgeclaw.Prelude.{ℕ, String, Option, none, some, Bool, str_eq, if◌then◌else◌}

-- A number is a `u64`, or the text of any other number (negative, or with a fraction).
mutual
  pub data Value : Type 0 where
    null : Value
    bool : Bool → Value
    unsigned : ℕ → Value
    other_number : String → Value
    string : String → Value
    array : Items → Value
    object : Fields → Value

  pub data Items : Type 0 where
    nil : Items
    cons : Value → Items → Items

  pub data Fields : Type 0 where
    end : Fields
    field : String → Value → Fields → Fields

abbrev pub lookup : String → Fields → Option Value
lookup k end = none
lookup k (field j v fs) = if str_eq j k then some v else lookup k fs

-- `value.get(key)`.
abbrev pub get : Value → String → Option Value
get (object fs) k = lookup k fs
get _ k = none

abbrev pub as_str : Value → Option String
as_str (string s) = some s
as_str _ = none

abbrev pub as_u64 : Value → Option ℕ
as_u64 (unsigned n) = some n
as_u64 _ = none

-- `value.get(key).and_then(|v| v.as_str())`.
abbrev pub get_str : Value → String → Option String
get_str v k = elim (get v k) [ none ↦ none | some w ↦ as_str w ]

-- `value.get(key).and_then(|v| v.as_u64())`.
abbrev pub get_u64 : Value → String → Option ℕ
get_u64 v k = elim (get v k) [ none ↦ none | some w ↦ as_u64 w ]
