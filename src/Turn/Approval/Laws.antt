-- ===== src/Turn/Approval/Laws.antt =====
-- Calls that wait for an approval: stored, read back, cleared and answered.
use edgeclaw.Prelude.{
  ℕ, String, ◌≡◌, refl, sym, ap, ◌∙◌, Option, none, some, Bool, Bool-cases, true, false, not, List,
  [], ◌∷◌, ◌++◌, map, str_eq_refl, append_assoc, append_nil, str_eq, eq_iff, arith, retain, All,
  inl, inr,
}
use edgeclaw.Prelude.Int.{ℤ}
use edgeclaw.Types.{ToolCall, error_for}
use edgeclaw.Skills.{SkillRegistry}
use edgeclaw.Database.{Tables, Json, persist_pending_approval, ApprovalRow, approval_row, reverse}
use edgeclaw.Turn.{World, Server, denied}
use edgeclaw.Turn.Calls.{ids, result_ids, run_calls-ids}
use edgeclaw.Turn.Approval.{
  approvals_of, calls_of, cons_call, clear_approvals, persist_approvals, resolve_calls,
}

str_eq-clash : (s a b : String) → str_eq s a ≡ true → str_eq a b ≡ false → str_eq s b ≡ false
str_eq-clash s a b h k = ground (arith, eq_iff s a, eq_iff a b, eq_iff s b)

retain-not :
    (user_id : String) (rows : List ApprovalRow)
    → retain (λ r. str_eq r.user_id user_id) (retain (λ r. not (str_eq r.user_id user_id)) rows)
      ≡ []
retain-not user_id [] = refl
retain-not user_id (row ∷ rows) = ground (arith, retain-not user_id rows)

retain-others :
    (user_id other : String) (rows : List ApprovalRow)
    → str_eq user_id other ≡ false
    → retain (λ r. str_eq r.user_id other) (retain (λ r. not (str_eq r.user_id user_id)) rows)
      ≡ retain (λ r. str_eq r.user_id other) rows
retain-others user_id other [] h = refl
retain-others user_id other (row ∷ rows) h = elim (Bool-cases (str_eq row.user_id user_id)) [
  | inl e ↦ rw (e, str_eq-clash row.user_id user_id other e h) (retain-others user_id other rows h)
  | inr e ↦ rw e (ground (arith, retain-others user_id other rows h))
]

-- Clearing a user's approvals leaves that user none, and everybody else theirs.
pub clear_approvals-only :
    (user_id other : String) (db : Tables)
    → str_eq user_id other ≡ false
    → (approvals_of user_id (clear_approvals user_id db) ≡ [])
      × (approvals_of other (clear_approvals user_id db) ≡ approvals_of other db)
unfolding approvals_of clear_approvals
clear_approvals-only user_id other db h = (
  ap reverse (retain-not user_id db.pending_approvals),
  ap reverse (retain-others user_id other db.pending_approvals h),
)

cons_call-some :
    (o : Option ToolCall) (ol : Option (List ToolCall)) (tcs : List ToolCall)
    → cons_call o ol ≡ some tcs
    → (t : ToolCall) × (l : List ToolCall) × (o ≡ some t) × (ol ≡ some l) × (tcs ≡ t ∷ l)
cons_call-some none ol tcs h = cc
cons_call-some (some t) none tcs h = cc
cons_call-some (some t) (some l) tcs h = (t, l, refl, refl, cc)

module _ (json : Json) where
  -- What serde_json writes of a call, it reads back.
  abbrev pub ReadsCall : ToolCall → Type 0
  ReadsCall tc = (s : String) × (json.write_call tc ≡ some s) × (json.read_call s ≡ some tc)

  calls_of-snoc :
      (rows : List ApprovalRow) (row : ApprovalRow) (tcs : List ToolCall) (tc : ToolCall)
      → calls_of json rows ≡ some tcs
      → json.read_call row.tool_call ≡ some tc
      → calls_of json (rows ++ row ∷ []) ≡ some (tcs ++ tc ∷ [])
  unfolding calls_of
  calls_of-snoc [] row tcs tc h e = rw e (ground arith)
  calls_of-snoc (r ∷ rows) row tcs tc h e =
      let (t, l, p, q, k) = cons_call-some _ _ tcs h in
      rw (p, k) (ap (cons_call (some t)) (calls_of-snoc rows row l tc q e))

  approvals_of-persist :
      (user_id : String) (now : ℤ) (tc : ToolCall) (db : Tables)
      → approvals_of user_id (persist_pending_approval json user_id now tc db)
        ≡ approvals_of user_id db ++ approval_row json user_id now tc db.next_approval ∷ []
  unfolding approvals_of persist_pending_approval
  approvals_of-persist user_id now tc db = rw (str_eq_refl user_id) refl

  row-call :
      (user_id : String) (now : ℤ) (tc : ToolCall) (n : ℕ)
      → ReadsCall tc
      → json.read_call (approval_row json user_id now tc n).tool_call ≡ some tc
  row-call user_id now tc n reads = let (s, written, read) = reads in rw written read

module _ {O : Type 0} (server : Server O) (user_id : String) where
  -- If serde_json reads back what it writes of them, the calls that a reply leaves for an approval are
  -- those that the next approval of the user finds, behind those that already waited, in their order.
  pub calls_of-persist_approvals :
      (tcs old : List ToolCall) (w : World O)
      → All (ReadsCall server.json) tcs
      → calls_of server.json (approvals_of user_id w.db) ≡ some old
      → calls_of server.json (approvals_of user_id (persist_approvals server user_id tcs w).db)
        ≡ some (old ++ tcs)
  unfolding persist_approvals
  calls_of-persist_approvals [] old w reads h = h ∙ ap some (sym (append_nil old))
  calls_of-persist_approvals (tc ∷ tcs) old w reads h =
      let db = persist_pending_approval server.json user_id (server.clock w) tc w.db in
      calls_of-persist_approvals tcs (old ++ tc ∷ []) (record w { db = db }) reads.1
        (ap (calls_of server.json)
            (approvals_of-persist server.json user_id (server.clock w) tc w.db)
          ∙ calls_of-snoc server.json (approvals_of user_id w.db) _ old tc h
              (row-call server.json user_id (server.clock w) tc w.db.next_approval reads.0))
      ∙ ap some (append_assoc old (tc ∷ []) tcs)

  resolve_calls-denied :
      (tcs : List ToolCall) → result_ids (map (λ tc. error_for tc.id denied) tcs) ≡ ids tcs
  unfolding error_for
  resolve_calls-denied [] = refl
  resolve_calls-denied (tc ∷ tcs) = ap (◌∷◌ tc.id) (resolve_calls-denied tcs)

  -- Approved or not, each of the pending calls gets one result, with its id, in the order of the calls.
  pub resolve_calls-ids :
      (approve : Bool) (tcs : List ToolCall) (registry : SkillRegistry) (w : World O)
      → result_ids (resolve_calls server user_id approve tcs registry w).0 ≡ ids tcs
  unfolding resolve_calls
  resolve_calls-ids true tcs registry w =
      run_calls-ids server.host server.codec (server.builtins user_id) tcs registry w
  resolve_calls-ids false tcs registry w = resolve_calls-denied tcs
