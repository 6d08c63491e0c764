-- ===== src/Handlers/History/Laws.antt =====
-- What clearing the history does to later turns and approvals.
use edgeclaw.Prelude.{
  ℕ, zero, suc, String, ◌≡◌, refl, ap, ◌∙◌, none, some, Bool, true, false, not, ◌&&◌, List, [], ◌∷◌,
  find, retain, filter_map, take, retain-retain-not, retain-retain_others, str_eq, eq_iff, arith,
  ◌==◌,
}
use edgeclaw.Prelude.Text.{◌<>◌, decimal}
use edgeclaw.Types.{err}
use edgeclaw.Database.{MessageRow, ApprovalRow, reverse, load_messages, message_of_row}
use edgeclaw.Turn.{World, Server, ServerConfig}
use edgeclaw.Turn.Approval.{handle_approval, clear_approvals, approvals_of, resolve_all}
use edgeclaw.Turn.Approval
use edgeclaw.Handlers.{internal_error}
use edgeclaw.Handlers.History.{clear_messages, clear_history, handle_approve, reply_approval}

str_eq-apart : (s a b : String) → str_eq a b ≡ false → str_eq s a ≡ true → str_eq s b ≡ false
str_eq-apart s a b d h = ground (arith, eq_iff a b, eq_iff s a, eq_iff s b)

find-cleared :
    (id : ℕ) (user_id : String) (rows : List ApprovalRow)
    → find
        (λ r. r.id == id && str_eq r.user_id user_id)
        (retain (λ r. not (str_eq r.user_id user_id)) rows)
      ≡ none
find-cleared id user_id [] = refl
find-cleared id user_id (row ∷ rows) = ground (arith, find-cleared id user_id rows)

module _ {O : Type 0} (server : Server O) (config : ServerConfig) (user_id : String) where
  -- The table as it is behind the handler.
  abbrev cleared : World O → World O
  cleared w = record w { db = (clear_history user_id w.db).1 }

  -- Nothing of a user's conversation is left once it is cleared: the next turn loads no message, no approval is listed, and
  -- an approval that the client still knows is refused as not found, with nothing executed. Other users' messages and
  -- approvals are as before.
  pub clear_history-Forgets :
      (w : World O) (limit id : ℕ) (approve : Bool)
      → (load_messages server.json user_id limit (cleared w).db ≡ [])
        × (approvals_of user_id (cleared w).db ≡ [])
        × (handle_approve server config user_id id approve (cleared w) ≡ (
          some (err (internal_error ("Pending approval " <> decimal id <> " not found"))),
          cleared w,
        ))
        × ((other : String)
            → str_eq user_id other ≡ false
            → (load_messages server.json other limit (cleared w).db
                ≡ load_messages server.json other limit w.db)
              × (approvals_of other (cleared w).db ≡ approvals_of other w.db))
  unfolding clear_history clear_messages clear_approvals load_messages approvals_of handle_approve
      handle_approval reply_approval
  clear_history-Forgets w limit id approve = (
    ap (λ rows. reverse (filter_map (message_of_row server.json) (take limit rows)))
          (retain-retain-not (λ (r : MessageRow). str_eq r.user_id user_id) w.db.messages)
        ∙ none_taken limit,
    ap reverse
        (retain-retain-not (λ (r : ApprovalRow). str_eq r.user_id user_id) w.db.pending_approvals),
    refused (find-cleared id user_id w.db.pending_approvals),
    λ other d. (
      ap (λ rows. reverse (filter_map (message_of_row server.json) (take limit rows)))
          (retain-retain_others (λ (r : MessageRow). str_eq r.user_id other)
            (λ (r : MessageRow). str_eq r.user_id user_id) w.db.messages
            (λ r h. str_eq-apart r.user_id user_id other d h)),
      ap reverse (
          retain-retain_others (λ (r : ApprovalRow). str_eq r.user_id other)
            (λ (r : ApprovalRow). str_eq r.user_id user_id) w.db.pending_approvals
            (λ r h. str_eq-apart r.user_id user_id other d h)),
    ),
  )
    where
      none_taken : (n : ℕ) → reverse (filter_map (message_of_row server.json) (take n [])) ≡ []
      none_taken zero = refl
      none_taken (suc n) = refl

      refused :
          find (λ r. r.id == id && str_eq r.user_id user_id) (cleared w).db.pending_approvals ≡ none
          → handle_approve server config user_id id approve (cleared w) ≡ (
            some (err (internal_error ("Pending approval " <> decimal id <> " not found"))),
            cleared w,
          )
      refused e =
          ap
            (λ o. reply_approval server config (elim o [
              | none ↦ (err (Approval.not_found id), cleared w)
              | some row ↦ resolve_all server user_id config approve (cleared w)
            ]))
            e
