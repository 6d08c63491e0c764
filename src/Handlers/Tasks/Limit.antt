-- ===== src/Handlers/Tasks/Limit.antt =====
-- The limit on the tasks of a user, over every sequence of requests, polls and runs, one after another.
use edgeclaw.Prelude.{
  ℕ, suc, ◌≤◌, ◌<◌, String, ◌≡◌, refl, ap, Option, none, some, true, false, Bool-cases, List, [],
  ◌∷◌, ◌++◌, map, retain, str_eq, eq_iff, arith, inl, inr, leb,
}
use edgeclaw.Prelude.Int.{ℤ, pos}
use edgeclaw.Json.{Value}
use edgeclaw.Types.{Result, ok, err}
use edgeclaw.Scheduler.{
  Task, Cron, Decision, rearm, disable, reject, change, update, decide, run_due, poll_once, is_due,
  finished,
}
use edgeclaw.Database.{ensure_user}
use edgeclaw.Handlers.{Failure}
use edgeclaw.Handlers.Tasks.{
  TaskTables, ScheduleTaskRequest, is_active, active, insert_task, schedule_at, schedule_task,
  when_of, disable_task, is_removed, delete_task,
}

-- A change that makes no task active makes no more tasks active.
active-map :
    (user_id : String) (f : Task → Task) (tasks : List Task)
    → ((x : Task) → is_active user_id (f x) ≡ true → is_active user_id x ≡ true)
    → active user_id (map f tasks) ≤ active user_id tasks
unfolding active
active-map user_id f [] h = omega arith
active-map user_id f (x ∷ tasks) h = ground (arith, h x, active-map user_id f tasks h)

active-snoc :
    (user_id : String) (tasks : List Task) (x : Task)
    → active user_id (tasks ++ x ∷ []) ≤ suc (active user_id tasks)
unfolding active
active-snoc user_id [] x = ground arith
active-snoc user_id (t ∷ tasks) x = ground (arith, active-snoc user_id tasks x)

active-snoc-other :
    (user_id : String) (tasks : List Task) (x : Task)
    → is_active user_id x ≡ false
    → active user_id (tasks ++ x ∷ []) ≡ active user_id tasks
unfolding active
active-snoc-other user_id [] x h = ground arith
active-snoc-other user_id (t ∷ tasks) x h = ground (arith, active-snoc-other user_id tasks x h)

update-is_active :
    (d : Decision) (id : ℕ) (user_id : String) (x : Task)
    → is_active user_id (update d id x) ≡ true
    → is_active user_id x ≡ true
unfolding update change is_active
update-is_active (rearm next) id user_id x h = ground arith
update-is_active disable id user_id x h = ground arith
update-is_active reject id user_id x h = ground arith

finished-is_active :
    (id : ℕ) (now : ℤ) (user_id : String) (x : Task)
    → is_active user_id (finished id now x) ≡ true
    → is_active user_id x ≡ true
unfolding finished is_active
finished-is_active id now user_id x h = ground arith

disable_task-is_active :
    (id : ℕ) (owner user_id : String) (x : Task)
    → is_active user_id (disable_task id owner x) ≡ true
    → is_active user_id x ≡ true
unfolding disable_task is_removed is_active
disable_task-is_active id owner user_id x h = ground arith

module _ (cron : Cron) (parse : String → Option Value) where
  active-run_due :
      (user_id : String) (due tasks : List Task)
      → active user_id (run_due cron parse due tasks).1 ≤ active user_id tasks
  unfolding run_due
  active-run_due user_id [] tasks = omega arith
  active-run_due user_id (t ∷ due) tasks =
      let d : Decision = decide cron t.cron in
      omega (
        arith,
        active-run_due user_id due (map (update d t.id) tasks),
        active-map user_id (update d t.id) tasks (update-is_active d t.id user_id),
      )

-- Every user has at most so many active tasks.
abbrev pub Within : ℕ → TaskTables → Type 0
Within n t = (user_id : String) → active user_id t.tasks ≤ n

module _ (n : ℕ) (cron : Cron) (to_string : Value → Result String String) where
  insert_task-Within :
      (body : ScheduleTaskRequest) (cron_expr : Option String) (run_at : ℤ)
      (payload : Result String String) (t : TaskTables)
      → active body.user_id t.tasks < n
      → Within n t
      → Within n (insert_task (pos n) cron to_string body cron_expr run_at payload t).1
  unfolding insert_task
  insert_task-Within body cron_expr run_at (err e) t h w user_id = w user_id
  insert_task-Within body cron_expr run_at (ok payload) t h w user_id =
      elim (Bool-cases (str_eq body.user_id user_id)) [
        | inl e ↦
            let same : body.user_id ≡ user_id = (eq_iff body.user_id user_id).0 e in
            omega
              (arith, h, active-snoc user_id t.tasks (new payload), ap (λ u. active u t.tasks) same)
        | inr e ↦ rw (active-snoc-other user_id t.tasks (new payload) (not_active e)) (w user_id)
      ]
    where
      new : String → Task
      new payload = record {
        id = t.next_id;
        user_id = body.user_id;
        name = body.name;
        cron = cron_expr;
        run_at = some run_at;
        payload = payload;
        last_run = none;
        enabled = true;
      }

      not_active : str_eq body.user_id user_id ≡ false → is_active user_id (new payload) ≡ false
      not_active e = unfold is_active in rw e refl

  schedule_at-Within :
      (body : ScheduleTaskRequest) (registered : ℤ) (r : Result (Option String × ℤ) Failure)
      (t : TaskTables)
      → Within n t
      → Within n (schedule_at (pos n) cron to_string body registered r t).1
  unfolding schedule_at
  schedule_at-Within body registered (err e) t w user_id = w user_id
  schedule_at-Within body registered (ok (expr, run_at)) t w user_id =
      elim (Bool-cases (leb n (active body.user_id t.tasks))) [
        | inl e ↦ ground (arith, e, w user_id)
        | inr e ↦ ground (
          arith,
          e,
          insert_task-Within body expr run_at (to_string body.payload)
              (record t { db = ensure_user body.user_id registered t.db }) (ground (arith, e)) w
              user_id,
        )
      ]

-- What changes the table: the handlers that schedule and that delete a task, a poll, and the end of a run.
pub data Step (n : ℕ) : TaskTables → TaskTables → Type 0 where
  scheduled :
      (cron : Cron) (to_string : Value → Result String String) (body : ScheduleTaskRequest)
      (registered : ℤ) (t : TaskTables)
      → Step n t (schedule_task (pos n) cron to_string body registered t).1
  deleted :
      (task_id : ℕ) (user_id : String) (t : TaskTables)
      → Step n t (record t { tasks = (delete_task task_id user_id t.tasks).1 })
  polled :
      (cron : Cron) (parse : String → Option Value) (now : ℤ) (t : TaskTables)
      → Step n t (record t { tasks = (poll_once cron parse now t.tasks).1 })
  ran :
      (task_id : ℕ) (now : ℤ) (t : TaskTables)
      → Step n t (record t { tasks = map (finished task_id now) t.tasks })

-- The tables that any steps lead to.
pub data Reach (n : ℕ) (start : TaskTables) : TaskTables → Type 0 where
  here : Reach n start start
  next : {t u : TaskTables} → Reach n start t → Step n t u → Reach n start u

Step-Within : (n : ℕ) {t u : TaskTables} → Step n t u → Within n t → Within n u
Step-Within n (scheduled cron to_string body registered t) w =
    unfold schedule_task in
    schedule_at-Within n cron to_string body registered (when_of cron body.cron body.run_at) t w
Step-Within n (deleted task_id owner t) w =
    unfold delete_task in
    λ user_id. omega (
      arith,
      w user_id,
      active-map user_id (disable_task task_id owner) t.tasks
          (disable_task-is_active task_id owner user_id),
    )
Step-Within n (polled cron parse now t) w =
    unfold poll_once in
    λ user_id.
      omega
        (arith, w user_id, active-run_due cron parse user_id (retain (is_due now) t.tasks) t.tasks)
Step-Within n (ran task_id now t) w = λ user_id. omega (
  arith,
  w user_id,
  active-map user_id (finished task_id now) t.tasks (finished-is_active task_id now user_id),
)

-- However requests to schedule and to delete tasks, polls of the scheduler and ends of runs follow on one another, no
-- user has more active tasks than the limit, if none had more at first.
pub Reach-Within : (n : ℕ) {start t : TaskTables} → Within n start → Reach n start t → Within n t
Reach-Within n w here = w
Reach-Within n w (next r s) = Step-Within n s (Reach-Within n w r)
