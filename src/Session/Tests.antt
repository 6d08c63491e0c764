-- ===== src/Session/Tests.antt =====
-- Two requests: one is answered twice, the other too late.
use edgeclaw.Prelude.{◌≡◌, refl, some, true, false, List, [], ◌∷◌, All}
use edgeclaw.Session.{
  answered, timed_out, no_pending, sender_of, finish, finish_sender, register, respond, expire,
  user_message, text, close, other, dispatch, inbound,
}
use edgeclaw.Session.Answers.{
  Event, asked, responded, expired, after, Approved, Once, after-Approved,
}

abbrev events : List Event
events =
    responded "b" true
    ∷ expired 1
    ∷ responded "a" false
    ∷ responded "a" true
    ∷ responded "z" true
    ∷ asked "b"
    ∷ asked "a"
    ∷ []

ended : (after events).ended ≡ (1, timed_out) ∷ (0, answered true) ∷ []
unfolding register respond expire finish finish_sender sender_of
ended = refl

closed :
    inbound
      (λ t. some (user_message t))
      (text "Hi" ∷ other ∷ close ∷ text "late" ∷ [])
      ([], no_pending)
    ≡ ("Hi" ∷ [], no_pending)
unfolding inbound dispatch
closed = refl

after-Approved_example : All (Approved events) (after events).ended × Once (after events).ended
after-Approved_example = after-Approved events
