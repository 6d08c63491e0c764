-- ===== src/Scheduler/Tests.antt =====
-- A task that runs once, and one that runs again and again.
use edgeclaw.Prelude.{String, ◌≡◌, refl, Option, none, some, true, [], ◌∷◌, inl}
use edgeclaw.Prelude.Int.{pos}
use edgeclaw.Json.{Value}
use edgeclaw.Types.{ok}
use edgeclaw.Scheduler.{Task, Cron, poll_once, is_due, reached}
use edgeclaw.Scheduler.Again.{Upcoming, poll_once-again}
use edgeclaw.Scheduler.Once.{NotRun, polls, poll_once-OneShot}

abbrev once : Task
once = record {
  id = 1;
  user_id = "ann";
  name = "remind";
  cron = none;
  run_at = some (pos 5);
  payload = "{}";
  last_run = none;
  enabled = true;
}

abbrev daily : Task
daily = record once { id = 2; cron = some "0 0 9 * * *" }

abbrev cron : Cron
cron expr = ok (some (pos 50))

abbrev parse : String → Option Value
parse s = none

upcoming : Upcoming (pos 10) cron
upcoming expr next h = let e : pos 50 ≡ next = cc in rw (← e) refl

poll_once-again_test :
    poll_once cron parse (pos 10) (poll_once cron parse (pos 10) (once ∷ daily ∷ [])).1
    ≡ ([], (poll_once cron parse (pos 10) (once ∷ daily ∷ [])).1)
poll_once-again_test = poll_once-again (pos 10) cron upcoming parse (once ∷ daily ∷ [])

poll_once-OneShot_example :
    NotRun 1
      (poll_once cron parse
        (pos 99)
        (polls parse [] (poll_once cron parse (pos 10) (once ∷ daily ∷ [])).1)).0
unfolding is_due reached
poll_once-OneShot_example =
    poll_once-OneShot parse (pos 10) cron (once ∷ daily ∷ []) once (inl (refl, refl)) [] (pos 99)
      cron
