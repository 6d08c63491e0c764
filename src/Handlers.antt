-- ===== src/Handlers.antt =====
-- crates/edgeclaw-server/src/handlers.rs: the handlers of the HTTP routes, on what they read and change.
-- A reply is its JSON value, whose fields stand in the order of the source; a statement succeeds.
pub mod Souls
pub mod Tasks
pub mod Skills
pub mod History
pub mod Html
pub mod Callback
use edgeclaw.Prelude.{ℕ, suc, String, Option, none, some, List, [], ◌∷◌}
use edgeclaw.Prelude.Int.{ℤ, pos, negsuc, display_int}
use edgeclaw.Json.{
  Value, null, bool, unsigned, other_number, string, array, object, Items, nil, cons, Fields, end,
  field,
}
use edgeclaw.Types.{Result, ok, err}

-- A status code, and the text under "error".
pub record Failure : Type 0 where
  pub status : ℕ
  pub error : String

abbrev pub Reply : Type 0
Reply = Result Value Failure

unfoldable pub internal_error : String → Failure
internal_error e = record { status = 500; error = e }

unfoldable pub bad_request : String → Failure
bad_request msg = record { status = 400; error = msg }

abbrev pub not_found : String → Failure
not_found msg = record { status = 404; error = msg }

-- What `json!` makes of values of other types.
abbrev pub int_value : ℤ → Value
int_value (pos n) = unsigned n
int_value (negsuc n) = other_number (display_int (negsuc n))

abbrev pub option_value : {A : Type 0} → (A → Value) → Option A → Value
option_value f none = null
option_value f (some a) = f a

abbrev pub items : List Value → Items
items [] = nil
items (v ∷ vs) = cons v (items vs)
