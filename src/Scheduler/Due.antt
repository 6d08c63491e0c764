-- ===== src/Scheduler/Due.antt =====
-- The tasks that are due, one after another.
use edgeclaw.Prelude.{◌≡◌, refl, true, false, List, ◌∷◌, retain}
use edgeclaw.Prelude.Int.{ℤ}
use edgeclaw.Scheduler.{Task, is_due}

pub retain-yes :
    (now : ℤ) (x : Task) (xs : List Task)
    → is_due now x ≡ true
    → retain (is_due now) (x ∷ xs) ≡ x ∷ retain (is_due now) xs
retain-yes now x xs e = rw e refl

pub retain-no :
    (now : ℤ) (x : Task) (xs : List Task)
    → is_due now x ≡ false
    → retain (is_due now) (x ∷ xs) ≡ retain (is_due now) xs
retain-no now x xs e = rw e refl
