-- ===== src/OAuth/Flows.antt =====
-- What a flow that is completed has behind it.
use Prim.Native.Nat.{◌%◌}
use edgeclaw.Prelude.{
  ℕ, ◌+◌, ◌^◌, ◌≤◌, String, ◌≡◌, refl, sym, ap, ◌∙◌, subst, ◌⊎◌, inl, inr, Option, none, some, Bool,
  true, false, Bool-cases, not, List, [], ◌∷◌, retain, str_eq, eq_iff, ltb, arith, Option-cases,
  if◌then◌else◌,
}
use edgeclaw.Types.{Result, ok, err}
use edgeclaw.OAuth.{
  ProviderConfig, OAuthFlowState, OAuthFlows, OAuthError, flow_not_found, flow_expired, remove,
  lookup, insert, new_flow, init_flow, complete_flow, cleanup,
}

-- What happens to the flows, newest first.
pub data Event : Type 0 where
  began : (nonce : String) → OAuthFlowState → Event
  completed : (nonce : String) → (now : ℕ) → Event
  cleaned : (now : ℕ) → Event

module _ (with_query : String → List (String × String) → String) (challenge : String → String) where
  -- The flows that a sequence of calls leads to, from none.
  pub data Run : List Event → OAuthFlows → Type 0 where
    none_yet : Run [] []
    begin :
        {es : List Event} {flows flows' : OAuthFlows}
        → (nonce code_verifier : String) (now : ℕ) (user_id skill_name : String)
          (config : ProviderConfig) (provider_name redirect_uri : String) (scopes : Option String)
        → Run es flows
        → flows'
          ≡ (init_flow with_query challenge nonce code_verifier now user_id skill_name config
              provider_name redirect_uri scopes flows).1
        → Run
            (began nonce (new_flow code_verifier now user_id skill_name config provider_name scopes)
              ∷ es)
            flows'
    complete :
        {es : List Event} {flows flows' : OAuthFlows}
        → (nonce : String) (now : ℕ) → Run es flows
        → flows' ≡ (complete_flow nonce now flows).1
        → Run (completed nonce now ∷ es) flows'
    clean :
        {es : List Event} {flows flows' : OAuthFlows}
        → (now : ℕ) → Run es flows
        → flows' ≡ cleanup now flows
        → Run (cleaned now ∷ es) flows'

-- The flow was begun under the nonce, and the nonce was neither begun again nor completed since.
abbrev pub Live : String → OAuthFlowState → List Event → Type 0
Live nonce state [] = ⊥
Live nonce state (began n s ∷ es) =
    ((str_eq n nonce ≡ true) × (s ≡ state)) ⊎ ((str_eq n nonce ≡ false) × Live nonce state es)
Live nonce state (completed n now ∷ es) = (str_eq n nonce ≡ false) × Live nonce state es
Live nonce state (cleaned now ∷ es) = Live nonce state es

-- The flows of other nonces.
abbrev others : String → String × OAuthFlowState → Bool
others n e = not (str_eq e.0 n)

-- No nonce stands twice.
abbrev Unique : OAuthFlows → Type 0
Unique [] = Unit {0}
Unique ((n, state) ∷ flows) = (lookup n flows ≡ none) × Unique flows

module _ (p : String × OAuthFlowState → Bool) where
  lookup-retain-none :
      (nonce : String) (flows : OAuthFlows)
      → lookup nonce flows ≡ none
      → lookup nonce (retain p flows) ≡ none
  unfolding lookup
  lookup-retain-none nonce [] h = refl
  lookup-retain-none nonce ((n, state) ∷ flows) h = ground (arith, lookup-retain-none nonce flows)

  retain-Unique : (flows : OAuthFlows) → Unique flows → Unique (retain p flows)
  retain-Unique [] h = tt
  retain-Unique ((n, state) ∷ flows) h = elim (Bool-cases (p (n, state))) [
    | inl e ↦ rw e (lookup-retain-none n flows h.0, retain-Unique flows h.1)
    | inr e ↦ rw e (retain-Unique flows h.1)
  ]

  skipped :
      (nonce n : String) (s : OAuthFlowState) (flows : OAuthFlows) (state : OAuthFlowState)
      → lookup n flows ≡ none
      → lookup nonce flows ≡ some state
      → lookup nonce ((n, s) ∷ flows) ≡ some state
  unfolding lookup
  skipped nonce n s flows state u g = elim (Bool-cases (str_eq n nonce)) [
    | inl q ↦
        let same : n ≡ nonce = ground (arith, eq_iff n nonce) in
        cc (subst (λ m. lookup m flows ≡ none) same u, g)
    | inr q ↦ rw q g
  ]

  -- What is found among the flows that stay was found before, and stays.
  lookup-retain :
      (nonce : String) (flows : OAuthFlows) (state : OAuthFlowState)
      → Unique flows
      → lookup nonce (retain p flows) ≡ some state
      → lookup nonce flows ≡ some state
  unfolding lookup
  lookup-retain nonce [] state u h = cc
  lookup-retain nonce ((n, s) ∷ flows) state u h = elim (Bool-cases (p (n, s))) [
    | inl e ↦ ground (arith, lookup-retain nonce flows state u.1)
    | inr e ↦ skipped nonce n s flows state u.0 (lookup-retain nonce flows state u.1 (ground arith))
  ]

remove-absent :
    (nonce : String) (flows : OAuthFlows) → lookup nonce flows ≡ none → remove nonce flows ≡ flows
unfolding lookup remove
remove-absent nonce [] h = refl
remove-absent nonce ((n, state) ∷ flows) h = elim (Bool-cases (str_eq n nonce)) [
  | inl e ↦ ground arith
  | inr e ↦ rw e (ap (◌∷◌ (n, state)) (remove-absent nonce flows (ground arith)))
]

pub lookup-removed :
    (nonce : String) (flows : OAuthFlows) → lookup nonce (remove nonce flows) ≡ none
unfolding lookup remove
lookup-removed nonce [] = refl
lookup-removed nonce ((n, state) ∷ flows) = ground (arith, lookup-removed nonce flows)

module _ (with_query : String → List (String × String) → String) (challenge : String → String) where
  -- What is known of the flows after a sequence of calls.
  abbrev Known : List Event → OAuthFlows → Type 0
  Known es flows =
      (nonce : String) (state : OAuthFlowState)
      → lookup nonce flows ≡ some state
      → Live nonce state es × (state.expires_at ≡ (state.created_at + 600) % 2 ^ 64)

  complete_flow-flows :
      (nonce : String) (now : ℕ) (flows : OAuthFlows)
      → (complete_flow nonce now flows).1 ≡ remove nonce flows
  unfolding complete_flow
  complete_flow-flows nonce now flows = elim (Option-cases (lookup nonce flows)) [
    | inl e ↦ rw (e, complete_flow) (sym (remove-absent nonce flows e))
    | inr (state, e) ↦ rw (e, complete_flow) refl
  ]

  run-Unique :
      {es : List Event} {flows : OAuthFlows} → Run with_query challenge es flows → Unique flows
  unfolding init_flow insert remove cleanup
  run-Unique none_yet = tt
  run-Unique (begin nonce v now u sk c p r sc run e) =
      subst Unique (sym e) (lookup-removed nonce _, retain-Unique _ _ (run-Unique run))
  run-Unique (complete nonce now run e) =
      subst Unique (sym (e ∙ complete_flow-flows nonce now _)) (retain-Unique _ _ (run-Unique run))
  run-Unique (clean now run e) = subst Unique (sym e) (retain-Unique _ _ (run-Unique run))

  Known-begin :
      (es : List Event) (flows : OAuthFlows) (n : String) (new : OAuthFlowState)
      → new.expires_at ≡ (new.created_at + 600) % 2 ^ 64
      → Unique flows
      → Known es flows
      → Known (began n new ∷ es) (insert n new flows)
  unfolding insert lookup remove
  Known-begin es flows n new t u known nonce state h = elim (Bool-cases (str_eq n nonce)) [
    | inl q ↦
        let same : new ≡ state = ground arith in
        (
          inl (q, same),
          subst (λ (x : OAuthFlowState). x.expires_at ≡ (x.created_at + 600) % 2 ^ 64) same t,
        )
    | inr q ↦
        let kept : lookup nonce (remove n flows) ≡ some state = ground arith in
        let (live, ttl) = known nonce state (lookup-retain (others n) nonce flows state u kept) in
        (inr (q, live), ttl)
  ]

  Known-complete :
      (es : List Event) (flows : OAuthFlows) (n : String) (now : ℕ)
      → Unique flows
      → Known es flows
      → Known (completed n now ∷ es) (remove n flows)
  unfolding remove
  Known-complete es flows n now u known nonce state h = elim (Bool-cases (str_eq n nonce)) [
    | inl q ↦
        let same : n ≡ nonce = ground (arith, eq_iff n nonce) in
        cc (subst (λ m. lookup m (remove n flows) ≡ none) same (lookup-removed n flows), h)
    | inr q ↦
        let (live, ttl) = known nonce state (lookup-retain (others n) nonce flows state u h) in
        ((q, live), ttl)
  ]

  run-Known :
      {es : List Event} {flows : OAuthFlows} → Run with_query challenge es flows → Known es flows
  unfolding init_flow new_flow cleanup lookup
  run-Known none_yet = λ nonce state h. cc
  run-Known (begin {es} {flows} nonce v now u sk c p r sc run e) =
      subst (Known (began nonce (new_flow v now u sk c p sc) ∷ es)) (sym e) (
        Known-begin es flows nonce (new_flow v now u sk c p sc) refl (run-Unique run)
          (run-Known run))
  run-Known (complete {es} {flows} nonce now run e) =
      subst (Known (completed nonce now ∷ es)) (sym (e ∙ complete_flow-flows nonce now flows))
        (Known-complete es flows nonce now (run-Unique run) (run-Known run))
  run-Known (clean {es} {flows} now run e) = subst (Known (cleaned now ∷ es)) (sym e) (λ n state h.
      run-Known run n state
        (lookup-retain (λ x. ltb now x.1.expires_at) n flows state (run-Unique run) h))

  abbrev outcome : ℕ → Option OAuthFlowState → Result OAuthFlowState OAuthError
  outcome now none = err flow_not_found
  outcome now (some state) = if ltb state.expires_at now then err flow_expired else ok state

  complete_flow-outcome :
      (nonce : String) (now : ℕ) (flows : OAuthFlows)
      → (complete_flow nonce now flows).0 ≡ outcome now (lookup nonce flows)
  unfolding complete_flow
  complete_flow-outcome nonce now flows = elim (Option-cases (lookup nonce flows)) [
    | inl e ↦ rw (e, complete_flow) refl
    | inr (state, e) ↦ rw (e, complete_flow) refl
  ]

  outcome-ok :
      (now : ℕ) (o : Option OAuthFlowState) (state : OAuthFlowState)
      → outcome now o ≡ ok state
      → (o ≡ some state) × (now ≤ state.expires_at)
  outcome-ok now none state h = cc
  outcome-ok now (some s) state h = elim (Bool-cases (ltb s.expires_at now)) [
    | inl e ↦ absurd (ground arith)
    | inr e ↦
        let same : s ≡ state = ground arith in
        (ap some same, subst (λ (x : OAuthFlowState). now ≤ x.expires_at) same (ground arith))
  ]

  -- After any sequence of beginnings, completions and clean-ups, a flow that is completed is one that was begun
  -- under its nonce, with the nonce neither begun again nor completed since, and at most ten minutes ago; the
  -- nonce is of no use after that.
  pub complete_flow-Live :
      {es : List Event} {flows : OAuthFlows}
      → Run with_query challenge es flows
      → (nonce : String) (now : ℕ) (state : OAuthFlowState)
      → (complete_flow nonce now flows).0 ≡ ok state
      → Live nonce state es
        × (now ≤ (state.created_at + 600) % 2 ^ 64)
        × (lookup nonce (complete_flow nonce now flows).1 ≡ none)
  complete_flow-Live {es} {flows} run nonce now state h =
      let (found, in_time) =
        outcome-ok now (lookup nonce flows) state
          (sym (complete_flow-outcome nonce now flows) ∙ h) in
      let (live, ttl) = run-Known run nonce state found in
      (
        live,
        subst (λ t. now ≤ t) ttl in_time,
        ap (lookup nonce) (complete_flow-flows nonce now flows) ∙ lookup-removed nonce flows,
      )
