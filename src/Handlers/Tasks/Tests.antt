-- ===== src/Handlers/Tasks/Tests.antt =====
-- A limit of one task: a second is refused until the first is deleted.
use edgeclaw.Prelude.{String, ◌≡◌, refl, none, some, [], arith, ◌≤◌}
use edgeclaw.Prelude.Int.{pos, display_int}
use edgeclaw.Prelude.Text.{decimal}
use edgeclaw.Json.{Value, null}
use edgeclaw.Types.{Result, ok, err}
use edgeclaw.Database.{ensure_user}
use edgeclaw.Scheduler.{Cron}
use edgeclaw.Fixtures.{no_tables}
use edgeclaw.Handlers.{bad_request, not_found}
use edgeclaw.Handlers.Tasks.{
  TaskTables, ScheduleTaskRequest, active, is_active, insert_task, schedule_at, schedule_task,
  when_of, delete_task, is_removed, disable_task,
}
use edgeclaw.Handlers.Tasks.Limit.{Within, scheduled, deleted, here, next, Reach-Within}

abbrev empty : TaskTables
empty = record { db = no_tables; tasks = []; next_id = 1 }

abbrev cron : Cron
cron expr = ok (some (pos 50))

abbrev to_string : Value → Result String String
to_string v = ok "{}"

abbrev once : ScheduleTaskRequest
once = record {
  user_id = "ann";
  name = "remind";
  cron = none;
  run_at = some (pos 5);
  payload = null;
}

abbrev one : TaskTables
one = (schedule_task (pos 1) cron to_string once (pos 0) empty).1

full :
    (schedule_task (pos 1) cron to_string once (pos 0) one).0
    ≡ err (bad_request "maximum of 1 active tasks per user")
unfolding schedule_task schedule_at when_of insert_task active is_active ensure_user display_int
    decimal
full = refl

both :
    (schedule_task
      (pos 1)
      cron
      to_string
      (record once { cron = some "0 0 9 * * *" })
      (pos 0)
      empty).0
    ≡ err (bad_request "exactly one of 'cron' or 'run_at' must be provided")
unfolding schedule_task schedule_at when_of
both = refl

gone : (delete_task 1 "bob" one.tasks).0 ≡ err (not_found "task not found")
unfolding delete_task schedule_task schedule_at when_of insert_task active is_active is_removed
    disable_task
gone = refl

Reach-Within_example : Within 1 (record one { tasks = (delete_task 1 "ann" one.tasks).1 })
Reach-Within_example =
    Reach-Within 1 {start = empty} (λ user_id. none_active user_id)
      (next (next here (scheduled cron to_string once (pos 0) empty)) (deleted 1 "ann" one))
  where
    none_active : (user_id : String) → active user_id [] ≤ 1
    none_active user_id = unfold active in omega arith
