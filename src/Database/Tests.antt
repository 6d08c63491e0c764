-- ===== src/Database/Tests.antt =====
-- Two messages in a table that holds one of another user.
use edgeclaw.Prelude.{◌-◌, ◌≡◌, refl, List, [], ◌∷◌, ◌++◌, map, arith}
use edgeclaw.Prelude.Int.{pos}
use edgeclaw.Types.{user, assistant, text, Message}
use edgeclaw.Fixtures.{json, no_tables}
use edgeclaw.Database.{Tables, load_messages, persist_messages}
use edgeclaw.Database.Messages.{stamped, load_messages-persist_messages, load_messages-other}

abbrev messages : List Message
messages =
    record { role = user; content = text "Hi" ∷ []; created_at = pos 0 }
    ∷ record { role = assistant; content = text "Hello" ∷ []; created_at = pos 0 }
    ∷ []

abbrev before : Tables
before = record no_tables {
  messages = record { user_id = "eve"; role = "user"; content = "Hey"; created_at = pos 1 } ∷ [];
}

load_messages-persist_messages_example :
    load_messages json "ann" 50 (persist_messages json "ann" (pos 7) messages before)
    ≡ load_messages json "ann" (50 - 2) before ++ map (stamped json (pos 7)) messages
load_messages-persist_messages_example =
    load_messages-persist_messages json "ann" (pos 7) messages 50 before
      (("Hi", refl, refl), (("Hello", refl, refl), tt)) (omega arith)

load_messages-other_test :
    load_messages json "eve" 50 (persist_messages json "ann" (pos 7) messages before)
    ≡ load_messages json "eve" 50 before
load_messages-other_test = load_messages-other json "ann" "eve" (pos 7) messages 50 before refl
