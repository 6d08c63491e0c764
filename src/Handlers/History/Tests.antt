-- ===== src/Handlers/History/Tests.antt =====
-- A history of two users that one of them clears.
use edgeclaw.Prelude.{ℕ, String, ◌≡◌, refl, some, true, false, [], ◌∷◌, str_eq}
use edgeclaw.Prelude.Int.{pos}
use edgeclaw.Prelude.Text.{◌<>◌, decimal}
use edgeclaw.Json.{string, object, array, unsigned, field, end, cons, nil}
use edgeclaw.Types.{ok, err}
use edgeclaw.Database.{Tables, load_messages}
use edgeclaw.Turn.{World}
use edgeclaw.Turn.Approval.{approvals_of}
use edgeclaw.Fixtures.{server, config, world, no_tables}
use edgeclaw.Handlers.{internal_error}
use edgeclaw.Handlers.History.{history, message_json, clear_history, handle_approve}
use edgeclaw.Handlers.History.Laws.{clear_history-Forgets}

abbrev db : Tables
db = record no_tables {
  messages =
      record { user_id = "ann"; role = "user"; content = "Hi"; created_at = pos 2 }
      ∷ record { user_id = "eve"; role = "user"; content = "Hey"; created_at = pos 1 }
      ∷ [];
  pending_approvals = record { id = 7; user_id = "ann"; tool_call = "t7"; created_at = pos 3 } ∷ [];
}

shown :
    history (λ s. some (string s)) "eve" db
    ≡ ok (
        array (
          cons
            (object (
              field "role"
                (string "user")
                (field "content" (string "Hey") (field "created_at" (unsigned 1) end))))
            nil))
unfolding history message_json
shown = refl

abbrev before : World ℕ
before = record world { db = db }

abbrev after : World ℕ
after = record before { db = (clear_history "ann" db).1 }

clear_history-Forgets_example :
    (load_messages server.json "ann" 50 after.db ≡ [])
    × (approvals_of "ann" after.db ≡ [])
    × (handle_approve server config "ann" 7 true after
        ≡ (some (err (internal_error ("Pending approval " <> decimal 7 <> " not found"))), after))
    × ((other : String)
        → str_eq "ann" other ≡ false
        → (load_messages server.json other 50 after.db ≡ load_messages server.json other 50 db)
          × (approvals_of other after.db ≡ approvals_of other db))
clear_history-Forgets_example = clear_history-Forgets server config "ann" before 50 7 true
