-- ===== src/Handlers/Tasks.antt =====
-- crates/edgeclaw-server/src/handlers.rs: the handlers of scheduled tasks, each run alone.
pub mod Limit
mod Tests
use edgeclaw.Prelude.{
  ℕ, ◌+◌, String, Option, none, some, Bool, true, false, ◌&&◌, not, List, [], ◌∷◌, ◌++◌, map,
  retain, any, length, str_eq, ◌==◌, if◌then◌else◌, unwrap_or,
}
use edgeclaw.Prelude.Int.{ℤ, pos, leb_ℤ, display_int}
use edgeclaw.Prelude.Text.{◌<>◌}
use edgeclaw.Json.{Value, null, bool, unsigned, string, array, object, field, end}
use edgeclaw.Types.{Result, ok, err, and_then, map_err}
use edgeclaw.Database.{Tables, ensure_user}
use edgeclaw.Scheduler.{Task, Cron}
use edgeclaw.Handlers.{
  Failure, Reply, bad_request, internal_error, not_found, int_value, option_value, items,
}

-- The table `scheduled_tasks`, whose ids count up, beside the others.
pub record TaskTables : Type 0 where
  pub db : Tables
  pub tasks : List Task
  pub next_id : ℕ

pub record ScheduleTaskRequest : Type 0 where
  pub user_id : String
  pub name : String
  pub cron : Option String
  pub run_at : Option ℤ
  pub payload : Value

unfoldable pub first_run : Result (Option ℤ) String → Result ℤ Failure
unfolding bad_request
first_run (err e) = err (bad_request ("invalid cron expression: " <> e))
first_run (ok none) = err (bad_request "cron expression has no upcoming runs")
first_run (ok (some next)) = ok next

-- Exactly one of the two is there: the expression that is stored, and the first time.
unfoldable pub when_of : Cron → Option String → Option ℤ → Result (Option String × ℤ) Failure
unfolding first_run
when_of cron (some expr) none = and_then (first_run (cron expr)) (λ next. ok (some expr, next))
when_of cron none (some ts) = ok (none, ts)
when_of cron (some expr) (some ts) =
    err (bad_request "exactly one of 'cron' or 'run_at' must be provided")
when_of cron none none = err (bad_request "exactly one of 'cron' or 'run_at' must be provided")

unfoldable pub is_active : String → Task → Bool
is_active user_id task = str_eq task.user_id user_id && task.enabled

-- SELECT COUNT(*) … WHERE user_id = ? AND enabled = 1.
unfoldable pub active : String → List Task → ℕ
unfolding is_active
active user_id tasks = length (retain (is_active user_id) tasks)

module _ (max_tasks_per_user : ℤ) (cron : Cron) (to_string : Value → Result String String) where
  -- INSERT INTO scheduled_tasks … RETURNING id.
  unfoldable pub insert_task :
      ScheduleTaskRequest
      → Option String
      → ℤ
      → Result String String
      → TaskTables
      → Reply × TaskTables
  unfolding internal_error
  insert_task body cron_expr run_at (err e) t = (err (internal_error e), t)
  insert_task body cron_expr run_at (ok payload) t = (
    ok (
        object (
          field "id" (unsigned t.next_id)
            (field "name" (string body.name) (field "next_run_at" (int_value run_at) end)))),
    record t {
      tasks =
          t.tasks
          ++ record {
            id = t.next_id;
            user_id = body.user_id;
            name = body.name;
            cron = cron_expr;
            run_at = some run_at;
            payload = payload;
            last_run = none;
            enabled = true;
          }
            ∷ [];
      next_id = t.next_id + 1;
    },
  )

  unfoldable pub schedule_at :
      ScheduleTaskRequest
      → (registered : ℤ) → Result (Option String × ℤ) Failure
      → TaskTables
      → Reply × TaskTables
  unfolding insert_task active ensure_user bad_request
  schedule_at body registered (err e) t = (err e, t)
  schedule_at body registered (ok (cron_expr, run_at)) t =
      let t1 = record t { db = ensure_user body.user_id registered t.db } in
      if leb_ℤ max_tasks_per_user (pos (active body.user_id t1.tasks))
      then (
        err (
            bad_request
              ("maximum of " <> display_int max_tasks_per_user <> " active tasks per user")),
        t1,
      )
      else insert_task body cron_expr run_at (to_string body.payload) t1

  -- `schedule_task_handler`.
  unfoldable pub schedule_task :
      ScheduleTaskRequest → (registered : ℤ) → TaskTables → Reply × TaskTables
  unfolding schedule_at when_of
  schedule_task body registered t =
      schedule_at body registered (when_of cron body.cron body.run_at) t

unfoldable pub task_json : (String → Option Value) → Task → Value
task_json parse task = object (
    field "id" (unsigned task.id) (
      field "name" (string task.name) (
        field "cron" (option_value string task.cron) (
          field "run_at" (option_value int_value task.run_at) (
            field "payload" (unwrap_or (parse task.payload) null)
              (field "last_run" (option_value int_value task.last_run) end))))))

-- `list_tasks_handler`.
unfoldable pub list_tasks : (String → Option Value) → String → List Task → Reply
unfolding task_json is_active
list_tasks parse user_id tasks =
    ok (array (items (map (task_json parse) (retain (is_active user_id) tasks))))

-- UPDATE scheduled_tasks SET enabled = 0 WHERE id = ? AND user_id = ? AND enabled = 1.
unfoldable pub is_removed : ℕ → String → Task → Bool
unfolding is_active
is_removed task_id user_id task = task.id == task_id && is_active user_id task

unfoldable pub disable_task : ℕ → String → Task → Task
unfolding is_removed
disable_task task_id user_id task =
    if is_removed task_id user_id task then record task { enabled = false } else task

-- `delete_task_handler`.
unfoldable pub delete_task : ℕ → String → List Task → Reply × List Task
unfolding is_removed disable_task
delete_task task_id user_id tasks = (
  if any (is_removed task_id user_id) tasks
      then ok (object (field "deleted" (bool true) (field "id" (unsigned task_id) end)))
      else err (not_found "task not found"),
  map (disable_task task_id user_id) tasks,
)
