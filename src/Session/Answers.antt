-- ===== src/Session/Answers.antt =====
-- Which answer a request for approval gets, over every order of requests, responses and timeouts.
use edgeclaw.Prelude.{
  ℕ, suc, String, ◌≡◌, refl, sym, ◌∙◌, subst, ◌⊎◌, inl, inr, Option, none, some, Bool, true, false,
  Bool-cases, List, [], ◌∷◌, any, All, All-weaken, str_eq, eq_iff, ◌==◌, arith,
}
use edgeclaw.Session.{
  Verdict, answered, timed_out, dropped, Pending, no_pending, sender_of, without, is_over, finish,
  finish_sender, register, respond, expire, approved_by,
}

-- What happens to the requests of a session.
pub data Event : Type 0 where
  asked : (id : String) → Event
  responded : (id : String) → (approved : Bool) → Event
  expired : (n : ℕ) → Event

abbrev pub step : Event → Pending → Pending
step (asked id) p = register id p
step (responded id approved) p = respond id approved p
step (expired n) p = expire n p

-- The requests behind such events, of which the newest stands first.
abbrev pub after : List Event → Pending
after [] = no_pending
after (e ∷ es) = step e (after es)

abbrev pub asks : List Event → ℕ
asks [] = 0
asks (asked id ∷ es) = suc (asks es)
asks (responded id b ∷ es) = asks es
asks (expired n ∷ es) = asks es

-- The request with the number was made under the id.
abbrev pub Asked : String → ℕ → List Event → Type 0
Asked id n [] = ⊥
Asked id n (asked i ∷ es) = ((i ≡ id) × (n ≡ asks es)) ⊎ Asked id n es
Asked id n (responded i b ∷ es) = Asked id n es
Asked id n (expired m ∷ es) = Asked id n es

-- The client gave the answer under the id of the request, when the request had been made.
abbrev pub Answered : ℕ → Bool → List Event → Type 0
Answered n v [] = ⊥
Answered n v (asked i ∷ es) = Answered n v es
Answered n v (responded i b ∷ es) = ((b ≡ v) × Asked i n es) ⊎ Answered n v es
Answered n v (expired m ∷ es) = Answered n v es

abbrev Backed : List Event → ℕ × Verdict → Type 0
Backed es (n, answered v) = Answered n v es
Backed es (n, timed_out) = Unit {0}
Backed es (n, dropped) = Unit {0}

-- No wait ends twice.
abbrev pub Once : List (ℕ × Verdict) → Type 0
Once [] = Unit {0}
Once (e ∷ es) = (any (λ x. x.0 == e.0) es ≡ false) × Once es

abbrev Senders : List Event → List (String × ℕ) → Type 0
Senders es = All (λ e. Asked e.0 e.1 es)

record Inv (es : List Event) (p : Pending) : Type 0 where
  senders : Senders es p.senders
  counted : p.next ≡ asks es
  backed : All (Backed es) p.ended
  once : Once p.ended

sender_of-Asked :
    (es : List Event) (id : String) (n : ℕ) (senders : List (String × ℕ))
    → Senders es senders
    → sender_of id senders ≡ some n
    → Asked id n es
unfolding sender_of
sender_of-Asked es id n [] h e = cc
sender_of-Asked es id n ((i, m) ∷ senders) h e = elim (Bool-cases (str_eq i id)) [
  | inl q ↦
      let same : i ≡ id = (eq_iff i id).0 q in
      let num : m ≡ n = ground (arith, q, e) in
      subst (λ k. Asked id k es) num (subst (λ j. Asked j m es) same h.0)
  | inr q ↦ sender_of-Asked es id n senders h.1 (ground (arith, q, e))
]

without-Senders :
    (es : List Event) (id : String) (senders : List (String × ℕ))
    → Senders es senders
    → Senders es (without id senders)
without-Senders es id [] h = h
without-Senders es id ((i, m) ∷ senders) h = elim (Bool-cases (str_eq i id)) [
  | inl q ↦ rw q (without-Senders es id senders h.1)
  | inr q ↦ rw q (h.0, without-Senders es id senders h.1)
]

finish-Once : (n : ℕ) (v : Verdict) (p : Pending) → Once p.ended → Once (finish n v p).ended
unfolding finish
finish-Once n v p h = elim (Bool-cases (is_over n p)) [ inl e ↦ rw e h | inr e ↦ rw e (e, h) ]

finish_backs :
    (es : List Event) (n : ℕ) (v : Verdict) (p : Pending)
    → Backed es (n, v)
    → All (Backed es) p.ended
    → All (Backed es) (finish n v p).ended
unfolding finish
finish_backs es n v p b h = elim (Bool-cases (is_over n p)) [ inl e ↦ rw e h | inr e ↦ rw e (b, h) ]

finish-rest :
    (n : ℕ) (v : Verdict) (p : Pending)
    → ((finish n v p).senders ≡ p.senders) × ((finish n v p).next ≡ p.next)
unfolding finish
finish-rest n v p = elim (Bool-cases (is_over n p)) [
  | inl e ↦ rw e (refl, refl)
  | inr e ↦ rw e (refl, refl)
]

abbrev Grown : List Event → Pending → Pending → Type 0
Grown es p q = All (Backed es) q.ended × Once q.ended × (q.senders ≡ p.senders) × (q.next ≡ p.next)

finish_sender-Grown :
    (es : List Event) (o : Option ℕ) (v : Verdict) (p : Pending)
    → ((n : ℕ) → o ≡ some n → Backed es (n, v))
    → All (Backed es) p.ended
    → Once p.ended
    → Grown es p (finish_sender o v p)
unfolding finish_sender
finish_sender-Grown es none v p b h k = (h, k, refl, refl)
finish_sender-Grown es (some n) v p b h k =
    let (s, c) = finish-rest n v p in
    (finish_backs es n v p (b n refl) h, finish-Once n v p k, s, c)

-- What was known stays known.
Backed-asked :
    (es : List Event) (id : String) (e : ℕ × Verdict) → Backed es e → Backed (asked id ∷ es) e
Backed-asked es id (n, answered v) h = h
Backed-asked es id (n, timed_out) h = h
Backed-asked es id (n, dropped) h = h

Backed-responded :
    (es : List Event) (id : String) (b : Bool) (e : ℕ × Verdict)
    → Backed es e
    → Backed (responded id b ∷ es) e
Backed-responded es id b (n, answered v) h = inr h
Backed-responded es id b (n, timed_out) h = h
Backed-responded es id b (n, dropped) h = h

Backed-expired :
    (es : List Event) (m : ℕ) (e : ℕ × Verdict) → Backed es e → Backed (expired m ∷ es) e
Backed-expired es m (n, answered v) h = h
Backed-expired es m (n, timed_out) h = h
Backed-expired es m (n, dropped) h = h

register-Inv :
    (es : List Event) (id : String) (p : Pending) → Inv es p → Inv (asked id ∷ es) (register id p)
unfolding register
register-Inv es id p inv =
    let (b, o, s, c) =
      finish_sender-Grown (asked id ∷ es) (sender_of id p.senders) dropped p (λ n e. tt)
        (All-weaken (Backed es) (Backed (asked id ∷ es)) p.ended (Backed-asked es id) inv.backed)
        inv.once in
    record {
      senders = (
        inl (refl, inv.counted),
        All-weaken (λ e. Asked e.0 e.1 es) (λ e. Asked e.0 e.1 (asked id ∷ es))
            (without id p.senders) (λ e h. inr h) (without-Senders es id p.senders inv.senders),
      );
      counted = omega (arith, inv.counted);
      backed = b;
      once = o;
    }

respond-Inv :
    (es : List Event) (id : String) (approved : Bool) (p : Pending)
    → Inv es p
    → Inv (responded id approved ∷ es) (respond id approved p)
unfolding respond
respond-Inv es id approved p inv =
    let q : Pending = record p { senders = without id p.senders } in
    let (b, o, s, c) =
      finish_sender-Grown (responded id approved ∷ es) (sender_of id p.senders) (answered approved)
        q (λ n e. inl (refl, sender_of-Asked es id n p.senders inv.senders e))
        (All-weaken (Backed es) (Backed (responded id approved ∷ es)) p.ended
          (Backed-responded es id approved) inv.backed)
        inv.once in
    record {
      senders = subst (Senders es) (sym s) (without-Senders es id p.senders inv.senders);
      counted = c ∙ inv.counted;
      backed = b;
      once = o;
    }

expire-Inv : (es : List Event) (n : ℕ) (p : Pending) → Inv es p → Inv (expired n ∷ es) (expire n p)
unfolding expire
expire-Inv es n p inv =
    let (s, c) = finish-rest n timed_out p in
    record {
      senders = subst (Senders es) (sym s) inv.senders;
      counted = c ∙ inv.counted;
      backed = finish_backs (expired n ∷ es) n timed_out p tt (
          All-weaken (Backed es) (Backed (expired n ∷ es)) p.ended (Backed-expired es n)
            inv.backed);
      once = finish-Once n timed_out p inv.once;
    }

after-Inv : (es : List Event) → Inv es (after es)
after-Inv [] = record { senders = tt; counted = refl; backed = tt; once = tt }
after-Inv (asked id ∷ es) = register-Inv es id (after es) (after-Inv es)
after-Inv (responded id b ∷ es) = respond-Inv es id b (after es) (after-Inv es)
after-Inv (expired n ∷ es) = expire-Inv es n (after es) (after-Inv es)

-- Each call that the wait lets run was approved.
abbrev pub Approved : List Event → ℕ × Verdict → Type 0
Approved es (n, v) = approved_by v ≡ true → Answered n true es

Backed-Approved : (es : List Event) (e : ℕ × Verdict) → Backed es e → Approved es e
unfolding approved_by
Backed-Approved es (n, answered v) b h = subst (λ w. Answered n w es) h b
Backed-Approved es (n, timed_out) b h = cc
Backed-Approved es (n, dropped) b h = cc

-- In whatever order requests, responses and timeouts follow on one another, a wait lets its call run only if the client
-- approved, by a response under the id of that request, given after the request was made; and no wait ends twice.
pub after-Approved : (es : List Event) → All (Approved es) (after es).ended × Once (after es).ended
after-Approved es =
    let inv = after-Inv es in
    (
      All-weaken (Backed es) (Approved es) (after es).ended (Backed-Approved es) inv.backed,
      inv.once,
    )
