-- ===== src/Scheduler/Again.antt =====
-- A task that was due is not due again at the same time.
use edgeclaw.Prelude.{
  ℕ, String, ◌≡◌, refl, sym, ap, subst, ◌⊎◌, Option, none, some, true, false, Bool-cases, List, [],
  ◌∷◌, map, retain, All, ◌==◌, arith, inl, inr,
}
use edgeclaw.Prelude.Int.{ℤ, leb_ℤ}
use edgeclaw.Json.{Value}
use edgeclaw.Types.{Result, ok, err}
use edgeclaw.Scheduler.Due.{retain-yes, retain-no}
use edgeclaw.Scheduler.{
  Task, Decision, rearm, disable, reject, Cron, decide, decide_next, change, update, reached,
  is_due, run_due, poll_once,
}

-- The times that the cron expressions give are still to come.
abbrev pub Upcoming : ℤ → Cron → Type 0
Upcoming now cron = (expr : String) (next : ℤ) → cron expr ≡ ok (some next) → leb_ℤ next now ≡ false

module _ (now : ℤ) (cron : Cron) (upcoming : Upcoming now cron) where
  -- A decision that leaves a task not due.
  abbrev Settles : Decision → Type 0
  Settles d = (task : Task) → is_due now (change d task) ≡ false

  next-Settles :
      (r : Result (Option ℤ) String)
      → ((next : ℤ) → r ≡ ok (some next) → leb_ℤ next now ≡ false)
      → Settles (decide_next r)
  unfolding decide_next change is_due reached
  next-Settles (ok (some next)) h task = rw (h next refl) refl
  next-Settles (ok none) h task = ground arith
  next-Settles (err e) h task = ground arith

  decide-Settles : (o : Option String) → Settles (decide cron o)
  unfolding decide change is_due
  decide-Settles none task = ground arith
  decide-Settles (some expr) task = next-Settles (cron expr) (upcoming expr) task

  update-stays :
      (d : Decision) (id : ℕ) (task : Task)
      → Settles d
      → is_due now task ≡ false
      → is_due now (update d id task) ≡ false
  unfolding update
  update-stays d id task s h = elim (Bool-cases (task.id == id)) [
    | inl e ↦ rw e (s task)
    | inr e ↦ rw e h
  ]

  -- Each task is not due, or its id is among those to be handled.
  abbrev Handled : List Task → Task → Type 0
  Handled [] task = is_due now task ≡ false
  Handled (d ∷ due) task = ((task.id == d.id) ≡ true) ⊎ Handled due task

  not_due-Handled : (due : List Task) (task : Task) → is_due now task ≡ false → Handled due task
  not_due-Handled [] task h = h
  not_due-Handled (d ∷ due) task h = inr (not_due-Handled due task h)

  update-id : (d : Decision) (id : ℕ) (task : Task) → (update d id task).id ≡ task.id
  unfolding update change
  update-id (rearm next) id task = ground arith
  update-id disable id task = ground arith
  update-id reject id task = ground arith

  update-Handled :
      (due : List Task) (d : Decision) (id : ℕ) (task : Task)
      → Settles d
      → Handled due task
      → Handled due (update d id task)
  update-Handled [] d id task s h = update-stays d id task s h
  update-Handled (t ∷ due) d id task s (inl e) = inl (rw (update-id d id task) e)
  update-Handled (t ∷ due) d id task s (inr h) = inr (update-Handled due d id task s h)

  step-Handled :
      (due : List Task) (d : Decision) (id : ℕ) (task : Task)
      → Settles d
      → ((task.id == id) ≡ true) ⊎ Handled due task
      → Handled due (update d id task)
  unfolding update
  step-Handled due d id task s (inl e) = not_due-Handled due _ (rw e (s task))
  step-Handled due d id task s (inr h) = update-Handled due d id task s h

  All-update :
      (due : List Task) (t : Task) (d : Decision) (tasks : List Task)
      → Settles d
      → All (Handled (t ∷ due)) tasks
      → All (Handled due) (map (update d t.id) tasks)
  All-update due t d [] s h = tt
  All-update due t d (task ∷ tasks) s h =
      (step-Handled due d t.id task s h.0, All-update due t d tasks s h.1)

  Handled-more : (t : Task) (due xs : List Task) → All (Handled due) xs → All (Handled (t ∷ due)) xs
  Handled-more t due [] h = tt
  Handled-more t due (x ∷ xs) h = (inr h.0, Handled-more t due xs h.1)

  All-Handled : (xs : List Task) → All (Handled (retain (is_due now) xs)) xs
  All-Handled [] = tt
  All-Handled (x ∷ xs) = elim (Bool-cases (is_due now x)) [
    | inl e ↦
        subst (λ l. All (Handled l) (x ∷ xs)) (sym (retain-yes now x xs e))
          (inl (ground arith), Handled-more x (retain (is_due now) xs) xs (All-Handled xs))
    | inr e ↦
        subst (λ l. All (Handled l) (x ∷ xs)) (sym (retain-no now x xs e))
          (not_due-Handled (retain (is_due now) xs) x e, All-Handled xs)
  ]

  module _ (parse : String → Option Value) where
    run_due-settles :
        (due tasks : List Task)
        → All (Handled due) tasks
        → All (λ t. is_due now t ≡ false) (run_due cron parse due tasks).1
    unfolding run_due
    run_due-settles [] tasks h = h
    run_due-settles (t ∷ due) tasks h =
        run_due-settles due (map (update (decide cron t.cron) t.id) tasks)
          (All-update due t (decide cron t.cron) tasks (decide-Settles t.cron) h)

    none-due :
        (tasks : List Task) → All (λ t. is_due now t ≡ false) tasks → retain (is_due now) tasks ≡ []
    none-due [] h = refl
    none-due (t ∷ tasks) h = rw h.0 (none-due tasks h.1)

    -- If the times that cron gives are still to come, a second poll at the same time runs nothing and changes nothing.
    pub poll_once-again :
        (tasks : List Task)
        → poll_once cron parse now (poll_once cron parse now tasks).1
          ≡ ([], (poll_once cron parse now tasks).1)
    unfolding poll_once run_due
    poll_once-again tasks =
        ap (λ due. run_due cron parse due (poll_once cron parse now tasks).1)
          (none-due _ (run_due-settles (retain (is_due now) tasks) tasks (All-Handled tasks)))
