-- ===== src/Scheduler.antt =====
-- crates/edgeclaw-server/src/scheduler.rs: one poll of the scheduled tasks.
pub mod Due
pub mod Again
pub mod Once
mod Tests
use edgeclaw.Prelude.{
  ℕ, String, Option, none, some, Bool, true, false, ◌&&◌, List, [], ◌∷◌, map, retain, ◌==◌,
  if◌then◌else◌, unwrap_or,
}
use edgeclaw.Prelude.Int.{ℤ, leb_ℤ}
use edgeclaw.Json.{Value, get_str, null}
use edgeclaw.Types.{Result, ok, err, AgentError}
use edgeclaw.Turn.{ServerConfig, Server, World, TurnReply, auto_approve, run_agent_turn}

-- A row of the table `scheduled_tasks`.
pub record Task : Type 0 where
  pub id : ℕ
  pub user_id : String
  pub name : String
  pub cron : Option String
  pub run_at : Option ℤ
  pub payload : String
  pub last_run : Option ℤ
  pub enabled : Bool

-- run_at <= now, which no NULL is.
unfoldable pub reached : ℤ → Option ℤ → Bool
reached now none = false
reached now (some t) = leb_ℤ t now

unfoldable pub is_due : ℤ → Task → Bool
unfolding reached
is_due now task = reached now task.run_at && task.enabled

-- What becomes of a task that is due.
pub data Decision : Type 0 where
  rearm : ℤ → Decision
  disable : Decision
  reject : Decision

-- The cron crate: the next time of an expression, if there is one, or that it is not valid.
abbrev pub Cron : Type 0
Cron = String → Result (Option ℤ) String

unfoldable pub decide_next : Result (Option ℤ) String → Decision
decide_next (ok (some next)) = rearm next
decide_next (ok none) = disable
decide_next (err e) = reject

unfoldable pub decide : Cron → Option String → Decision
unfolding decide_next
decide cron none = disable
decide cron (some expr) = decide_next (cron expr)

-- UPDATE scheduled_tasks SET … WHERE id = ?.
unfoldable pub change : Decision → Task → Task
change (rearm next) task = record task { run_at = some next }
change disable task = record task { enabled = false }
change reject task = record task { enabled = false }

unfoldable pub update : Decision → ℕ → Task → Task
unfolding change
update d id task = if task.id == id then change d task else task

-- The execution that is spawned for a task.
pub record Spawned : Type 0 where
  pub task_id : ℕ
  pub user_id : String
  pub message : String

-- serde_json on the payload; a failure gives null.
unfoldable pub message_of : (String → Option Value) → String → String
message_of parse payload =
    unwrap_or (get_str (unwrap_or (parse payload) null) "message") "Scheduled task triggered"

unfoldable pub spawn : (String → Option Value) → Decision → Task → List Spawned → List Spawned
unfolding message_of
spawn parse reject task rest = rest
spawn parse (rearm next) task rest =
    record { task_id = task.id; user_id = task.user_id; message = message_of parse task.payload }
    ∷ rest
spawn parse disable task rest =
    record { task_id = task.id; user_id = task.user_id; message = message_of parse task.payload }
    ∷ rest

module _ (cron : Cron) (parse : String → Option Value) where
  -- The loop over the tasks that were due.
  unfoldable pub run_due : List Task → List Task → List Spawned × List Task
  unfolding decide update spawn
  run_due [] tasks = ([], tasks)
  run_due (task ∷ due) tasks =
      let d = decide cron task.cron in
      let (spawned, tasks') = run_due due (map (update d task.id) tasks) in
      (spawn parse d task spawned, tasks')

  unfoldable pub poll_once : ℤ → List Task → List Spawned × List Task
  unfolding run_due is_due
  poll_once now tasks = run_due (retain (is_due now) tasks) tasks

-- What a spawned execution does, and the update of `last_run` behind it.
unfoldable pub execute :
    {O : Type 0}
    → Server O
    → ServerConfig
    → ℕ
    → Spawned
    → World O
    → Option (Result TurnReply AgentError × World O)
unfolding run_agent_turn
execute server config fuel spawned w =
    run_agent_turn server config spawned.user_id none auto_approve fuel spawned.message w

unfoldable pub finished : ℕ → ℤ → Task → Task
finished id now task = if task.id == id then record task { last_run = some now } else task
