-- ===== src/Session.antt =====
-- crates/edgeclaw-server/src/session.rs and the WebSocket of handlers.rs: the sessions, and the requests for
-- approval that wait in one. Each waiting request is a oneshot channel, which has a number here.
pub mod Answers
mod Tests
use edgeclaw.Prelude.{
  ℕ, ◌+◌, String, Option, none, some, Bool, true, false, not, List, [], ◌∷◌, any, retain, str_eq,
  ◌==◌, if◌then◌else◌,
}
use edgeclaw.Json.{Value, get_str}

-- The messages of a client, and the frames of the socket.
pub data ClientMessage : Type 0 where
  user_message : (message : String) → ClientMessage
  approval_response : (request_id : String) → (approved : Bool) → ClientMessage

pub data WsMessage : Type 0 where
  text : String → WsMessage
  close : WsMessage
  other : WsMessage

-- How a wait for a channel ends: with what was sent, by the timeout, or because the sender was dropped.
pub data Verdict : Type 0 where
  answered : Bool → Verdict
  timed_out : Verdict
  dropped : Verdict

-- `pending_approvals` holds the senders; `ended` the waits that are over, newest first.
pub record Pending : Type 0 where
  pub senders : List (String × ℕ)
  pub next : ℕ
  pub ended : List (ℕ × Verdict)

abbrev pub no_pending : Pending
no_pending = record { senders = []; next = 0; ended = [] }

unfoldable pub sender_of : String → List (String × ℕ) → Option ℕ
sender_of id [] = none
sender_of id ((i, n) ∷ senders) = if str_eq i id then some n else sender_of id senders

abbrev pub without : String → List (String × ℕ) → List (String × ℕ)
without id senders = retain (λ e. not (str_eq e.0 id)) senders

abbrev pub is_over : ℕ → Pending → Bool
is_over n p = any (λ e. e.0 == n) p.ended

-- A channel takes one value, and none once its wait is over.
unfoldable pub finish : ℕ → Verdict → Pending → Pending
finish n v p = if is_over n p then p else record p { ended = (n, v) ∷ p.ended }

unfoldable pub finish_sender : Option ℕ → Verdict → Pending → Pending
unfolding finish
finish_sender none v p = p
finish_sender (some n) v p = finish n v p

-- `insert`, by the turn that asks; a sender under the same id is dropped.
unfoldable pub register : String → Pending → Pending
unfolding finish_sender sender_of
register id p =
    let p1 = finish_sender (sender_of id p.senders) dropped p in
    record p1 { senders = (id, p.next) ∷ without id p.senders; next = p.next + 1 }

-- `remove`, and `send` on what was there.
unfoldable pub respond : String → Bool → Pending → Pending
unfolding finish_sender sender_of
respond id approved p =
    finish_sender (sender_of id p.senders) (answered approved)
      (record p { senders = without id p.senders })

-- Five minutes are over for a wait.
unfoldable pub expire : ℕ → Pending → Pending
unfolding finish
expire n p = finish n timed_out p

-- Whether the call that waits may run.
unfoldable pub approved_by : Verdict → Bool
approved_by (answered v) = v
approved_by timed_out = false
approved_by dropped = false

-- The inbound pump: the messages that start turns, and the requests behind it. It ends at a close frame and at
-- the end of the stream.
module _ (from_str : String → Option ClientMessage) where
  unfoldable pub dispatch : Option ClientMessage → List String × Pending → List String × Pending
  unfolding respond
  dispatch none (started, p) = (started, p)
  dispatch (some (user_message message)) (started, p) = (message ∷ started, p)
  dispatch (some (approval_response request_id approved)) (started, p) =
      (started, respond request_id approved p)

  unfoldable pub inbound : List WsMessage → List String × Pending → List String × Pending
  unfolding dispatch
  inbound [] s = s
  inbound (text t ∷ stream) s = inbound stream (dispatch (from_str t) s)
  inbound (close ∷ stream) s = s
  inbound (other ∷ stream) s = inbound stream s

-- The user that the first frame names; without one the connection is given up.
unfoldable pub handshake : (String → Option Value) → List WsMessage → Option String
handshake from_json (text t ∷ stream) = elim (from_json t) [
  | none ↦ none
  | some msg ↦ get_str msg "user_id"
]
handshake from_json (close ∷ stream) = none
handshake from_json (other ∷ stream) = none
handshake from_json [] = none

pub record SessionHandle : Type 0 where
  pub user_id : String
  pub pending_approvals : Pending

-- `SessionRegistry`, by the sessions' ids.
abbrev pub SessionRegistry : Type 0
SessionRegistry = List (String × SessionHandle)

unfoldable pub add_session : String → SessionHandle → SessionRegistry → SessionRegistry
add_session id handle sessions = (id, handle) ∷ retain (λ e. not (str_eq e.0 id)) sessions

unfoldable pub remove_session : String → SessionRegistry → SessionRegistry
remove_session id sessions = retain (λ e. not (str_eq e.0 id)) sessions
