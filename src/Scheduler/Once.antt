-- ===== src/Scheduler/Once.antt =====
-- A task that is to run once is not run again.
use edgeclaw.Prelude.{
  ℕ, String, ◌≡◌, sym, subst, ◌⊎◌, Option, none, true, false, Bool-cases, List, [], ◌∷◌, map,
  retain, All, ◌==◌, arith, inl, inr,
}
use edgeclaw.Prelude.Int.{ℤ}
use edgeclaw.Json.{Value}
use edgeclaw.Scheduler.Due.{retain-yes, retain-no}
use edgeclaw.Scheduler.{
  Task, Decision, rearm, disable, reject, Cron, decide, change, update, is_due, run_due, poll_once,
  Spawned, spawn,
}

-- Every task of the id is disabled.
abbrev Off : ℕ → List Task → Type 0
Off id tasks = All (λ t. (t.id == id) ≡ true → t.enabled ≡ false) tasks

-- None of the executions is of the id.
abbrev pub NotRun : ℕ → List Spawned → Type 0
NotRun id spawned = All (λ s. (s.task_id == id) ≡ false) spawned

module _ (parse : String → Option Value) where
  update-Off :
      (d : Decision) (other id : ℕ) (tasks : List Task)
      → Off id tasks
      → Off id (map (update d other) tasks)
  unfolding update change
  update-Off d other id [] h = tt
  update-Off (rearm next) other id (t ∷ tasks) h =
      (λ e. ground (arith, h.0), update-Off (rearm next) other id tasks h.1)
  update-Off disable other id (t ∷ tasks) h =
      (λ e. ground (arith, h.0), update-Off disable other id tasks h.1)
  update-Off reject other id (t ∷ tasks) h =
      (λ e. ground (arith, h.0), update-Off reject other id tasks h.1)

  run_due-Off :
      (cron : Cron) (id : ℕ) (due tasks : List Task)
      → Off id tasks
      → Off id (run_due cron parse due tasks).1
  unfolding run_due
  run_due-Off cron id [] tasks h = h
  run_due-Off cron id (t ∷ due) tasks h =
      run_due-Off cron id due _ (update-Off (decide cron t.cron) t.id id tasks h)

  disable-Off : (id : ℕ) (tasks : List Task) → Off id (map (update disable id) tasks)
  unfolding update change
  disable-Off id [] = tt
  disable-Off id (t ∷ tasks) = (λ e. ground arith, disable-Off id tasks)

  -- The task is in the list, and runs once only.
  abbrev pub OneShot : Task → List Task → Type 0
  OneShot task [] = ⊥
  OneShot task (t ∷ due) = ((t ≡ task) × (task.cron ≡ none)) ⊎ OneShot task due

  run_due-OneShot :
      (cron : Cron) (task : Task) (due tasks : List Task)
      → OneShot task due
      → Off task.id (run_due cron parse due tasks).1
  unfolding run_due decide
  run_due-OneShot cron task [] tasks h = absurd h
  run_due-OneShot cron task (t ∷ due) tasks (inl (e, once)) =
      run_due-Off cron task.id due (map (update (decide cron t.cron) t.id) tasks) (
        subst (λ (x : Task). Off task.id (map (update (decide cron x.cron) x.id) tasks)) (sym e)
          (subst (λ o. Off task.id (map (update (decide cron o) task.id) tasks)) (sym once)
            (disable-Off task.id tasks)))
  run_due-OneShot cron task (t ∷ due) tasks (inr h) =
      run_due-OneShot cron task due (map (update (decide cron t.cron) t.id) tasks) h

  -- What is due is not of an id that is off.
  off-id :
      (now : ℤ) (id : ℕ) (t : Task)
      → ((t.id == id) ≡ true → t.enabled ≡ false)
      → is_due now t ≡ true
      → (t.id == id) ≡ false
  unfolding is_due
  off-id now id t off e = elim (Bool-cases (t.id == id)) [
    | inl q ↦ absurd (ground (arith, off q))
    | inr q ↦ q
  ]

  due-Off :
      (now : ℤ) (id : ℕ) (tasks : List Task)
      → Off id tasks
      → All (λ t. (t.id == id) ≡ false) (retain (is_due now) tasks)
  due-Off now id [] h = tt
  due-Off now id (t ∷ tasks) h = elim (Bool-cases (is_due now t)) [
    | inl e ↦
        subst (All (λ x. (x.id == id) ≡ false)) (sym (retain-yes now t tasks e))
          (off-id now id t h.0 e, due-Off now id tasks h.1)
    | inr e ↦
        subst (All (λ x. (x.id == id) ≡ false)) (sym (retain-no now t tasks e))
          (due-Off now id tasks h.1)
  ]

  spawn-NotRun :
      (id : ℕ) (d : Decision) (t : Task) (rest : List Spawned)
      → (t.id == id) ≡ false
      → NotRun id rest
      → NotRun id (spawn parse d t rest)
  unfolding spawn
  spawn-NotRun id (rearm next) t rest h k = (h, k)
  spawn-NotRun id disable t rest h k = (h, k)
  spawn-NotRun id reject t rest h k = k

  run_due-NotRun :
      (cron : Cron) (id : ℕ) (due tasks : List Task)
      → All (λ t. (t.id == id) ≡ false) due
      → NotRun id (run_due cron parse due tasks).0
  unfolding run_due
  run_due-NotRun cron id [] tasks h = tt
  run_due-NotRun cron id (t ∷ due) tasks h =
      spawn-NotRun id (decide cron t.cron) t _ h.0 (run_due-NotRun cron id due _ h.1)

  -- Polls, each at its time and with the cron of that time.
  abbrev pub polls : List (ℤ × Cron) → List Task → List Task
  polls [] tasks = tasks
  polls ((now, cron) ∷ ps) tasks = polls ps (poll_once cron parse now tasks).1

  polls-Off :
      (id : ℕ) (ps : List (ℤ × Cron)) (tasks : List Task) → Off id tasks → Off id (polls ps tasks)
  unfolding poll_once
  polls-Off id [] tasks h = h
  polls-Off id ((now, cron) ∷ ps) tasks h =
      polls-Off id ps _ (run_due-Off cron id (retain (is_due now) tasks) tasks h)

  -- A task without a cron expression that one poll finds due is run by no later poll, whatever the times.
  pub poll_once-OneShot :
      (now : ℤ) (cron : Cron) (tasks : List Task) (task : Task)
      → OneShot task (retain (is_due now) tasks)
      → (ps : List (ℤ × Cron)) (later : ℤ) (cron' : Cron)
      → NotRun task.id (poll_once cron' parse later (polls ps (poll_once cron parse now tasks).1)).0
  unfolding poll_once
  poll_once-OneShot now cron tasks task h ps later cron' = run_due-NotRun cron' task.id _ _ (
      due-Off later task.id (polls ps (run_due cron parse (retain (is_due now) tasks) tasks).1)
        (polls-Off task.id ps _ (run_due-OneShot cron task (retain (is_due now) tasks) tasks h)))
