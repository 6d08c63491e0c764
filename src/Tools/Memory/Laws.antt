-- ===== src/Tools/Memory/Laws.antt =====
-- A fact that is stored and fetched, and the other facts.
use edgeclaw.Prelude.{
  String, ◌≡◌, refl, ap, ap₂, ◌∙◌, subst, Option, some, Bool, true, false, Bool-cases, not, ◌&&◌,
  List, [], ◌∷◌, retain, str_eq, str_eq_refl, eq_iff, arith, inl, inr, if◌then◌else◌,
}
use edgeclaw.Prelude.Int.{ℤ}
use edgeclaw.Json.{Value, get_str}
use edgeclaw.Types.{Result, ToolResult, ok, err, require_str, ok_result}
use edgeclaw.Tools.Memory.{
  Fact, Sqlite, fact_line, format_facts, is_fact, upsert, store_with, store_key, memory_store,
  fetch_by, memory_fetch, delete_key, memory_delete,
}

-- The table's constraint: one fact for each user and key.
abbrev pub Unique : List Fact → Type 0
Unique [] = Unit {0}
Unique (f ∷ facts) = (retain (is_fact f.user_id f.key) facts ≡ []) × Unique facts

abbrev pub stored : String → String → String → Option String → ℤ → Fact
stored user_id key value tags now = record {
  user_id = user_id;
  key = key;
  value = value;
  tags = tags;
  created_at = now;
}

pub is_fact-same :
    (user_id key : String) (f : Fact)
    → is_fact user_id key f ≡ true
    → (f.user_id ≡ user_id) × (f.key ≡ key)
unfolding is_fact
is_fact-same user_id key f h =
    (ground (arith, eq_iff f.user_id user_id), ground (arith, eq_iff f.key key))

pub is_fact-clash :
    (user_id key other_user other : String) (f : Fact)
    → (str_eq user_id other_user && str_eq key other) ≡ false
    → is_fact user_id key f ≡ true
    → is_fact other_user other f ≡ false
unfolding is_fact
is_fact-clash user_id key other_user other f d h = ground (
  arith,
  eq_iff f.user_id user_id,
  eq_iff f.key key,
  eq_iff f.user_id other_user,
  eq_iff f.key other,
  eq_iff user_id other_user,
  eq_iff key other,
)

pub is_fact-itself :
    (user_id key value : String) (tags : Option String) (now : ℤ)
    → is_fact user_id key (stored user_id key value tags now) ≡ true
unfolding is_fact
is_fact-itself user_id key value tags now = rw (str_eq_refl user_id, str_eq_refl key) refl

module _ (user_id key value : String) (tags : Option String) (now : ℤ) where
  pub upsert-here :
      (f : Fact) (facts : List Fact)
      → is_fact user_id key f ≡ true
      → upsert user_id key value tags now (f ∷ facts) ≡ stored user_id key value tags now ∷ facts
  unfolding upsert
  upsert-here f facts e =
      let (p, q) = is_fact-same user_id key f e in
      ap
        (λ b.
          if b
          then record f { value = value; tags = tags; created_at = now } ∷ facts
          else f ∷ upsert user_id key value tags now facts)
        e
      ∙ ap₂ (λ x k. stored x k value tags now ∷ facts) p q

  pub upsert-past :
      (f : Fact) (facts : List Fact)
      → is_fact user_id key f ≡ false
      → upsert user_id key value tags now (f ∷ facts) ≡ f ∷ upsert user_id key value tags now facts
  unfolding upsert
  upsert-past f facts e = rw e refl

  pub retain-same :
      (f : Fact) (facts : List Fact)
      → retain (is_fact f.user_id f.key) facts ≡ []
      → is_fact user_id key f ≡ true
      → retain (is_fact user_id key) facts ≡ []
  retain-same f facts u e =
      let (p, q) = is_fact-same user_id key f e in
      subst (λ k. retain (is_fact user_id k) facts ≡ []) q
        (subst (λ x. retain (is_fact x f.key) facts ≡ []) p u)

  retain-upsert :
      (facts : List Fact)
      → Unique facts
      → retain (is_fact user_id key) (upsert user_id key value tags now facts)
        ≡ stored user_id key value tags now ∷ []
  retain-upsert [] u = unfold upsert in rw (is_fact-itself user_id key value tags now) refl
  retain-upsert (f ∷ facts) u = elim (Bool-cases (is_fact user_id key f)) [
    | inl e ↦
        rw
          (
            upsert-here f facts e,
            is_fact-itself user_id key value tags now,
            retain-same f facts u.0 e,
          )
          refl
    | inr e ↦ rw (upsert-past f facts e, e) (retain-upsert facts u.1)
  ]

  -- The facts under any other user or key are as they were.
  pub retain-upsert-other :
      (other_user other : String) (facts : List Fact)
      → (str_eq user_id other_user && str_eq key other) ≡ false
      → retain (is_fact other_user other) (upsert user_id key value tags now facts)
        ≡ retain (is_fact other_user other) facts
  retain-upsert-other other_user other [] d =
      unfold upsert in
      rw
        (is_fact-clash user_id key other_user other (stored user_id key value tags now) d
          (is_fact-itself user_id key value tags now))
        refl
  retain-upsert-other other_user other (f ∷ facts) d = elim (Bool-cases (is_fact user_id key f)) [
    | inl e ↦
        rw
          (
            upsert-here f facts e,
            is_fact-clash user_id key other_user other (stored user_id key value tags now) d
                (is_fact-itself user_id key value tags now),
            is_fact-clash user_id key other_user other f d e,
          )
          refl
    | inr e ↦ rw (upsert-past f facts e, retain-upsert-other other_user other facts d) refl
  ]

fetch_ok :
    (user_id key : String) (facts : List Fact) (fact : Fact)
    → retain (is_fact user_id key) facts ≡ fact ∷ []
    → format_facts (retain (is_fact user_id key) facts) ≡ ok_result (fact_line fact)
unfolding format_facts
fetch_ok user_id key facts fact e = rw e refl

module _ (sqlite : Sqlite) (user_id key : String) (input query : Value) (facts : List Fact) where
  -- A fact that is stored under a key is what a fetch by that key then returns, with its value and its tags
  -- and nothing else, whether or not the user had stored the key before; at most one fact had each user and key.
  pub memory_fetch-memory_store :
      (value : String) (now : ℤ)
      → Unique facts
      → require_str input "key" ≡ ok key
      → require_str input "value" ≡ ok value
      → get_str query "key" ≡ some key
      → memory_fetch sqlite user_id query (memory_store sqlite user_id input now facts).1
        ≡ ok_result (fact_line (stored user_id key value (get_str input "tags") now))
  unfolding memory_fetch memory_store store_key store_with fetch_by
  memory_fetch-memory_store value now u k v q =
      rw (k, v, q)
        (fetch_ok user_id key (upsert user_id key value (get_str input "tags") now facts)
          (stored user_id key value (get_str input "tags") now)
          (retain-upsert user_id key value (get_str input "tags") now facts u))

  -- Storing a fact changes no fetch by key of another user or of another key.
  pub memory_fetch-other :
      (other_user other : String) (now : ℤ)
      → require_str input "key" ≡ ok key
      → (str_eq user_id other_user && str_eq key other) ≡ false
      → get_str query "key" ≡ some other
      → memory_fetch sqlite other_user query (memory_store sqlite user_id input now facts).1
        ≡ memory_fetch sqlite other_user query facts
  unfolding memory_fetch memory_store store_key store_with fetch_by
  memory_fetch-other other_user other now k d q = rw (k, q) (by_value (require_str input "value"))
    where
      by_value :
          (v : Result String ToolResult)
          → format_facts (
              retain
                (is_fact other_user other)
                (store_with sqlite user_id key (get_str input "tags") now v facts).1)
            ≡ format_facts (retain (is_fact other_user other) facts)
      by_value (err e) = refl
      by_value (ok value) = ap format_facts (
          retain-upsert-other user_id key value (get_str input "tags") now other_user other facts d)

  -- A fact that is deleted is not found by a fetch of its key.
  pub memory_fetch-memory_delete :
      require_str input "key" ≡ ok key
      → get_str query "key" ≡ some key
      → memory_fetch sqlite user_id query (memory_delete sqlite user_id input facts).1
        ≡ ok_result "No facts found."
  unfolding memory_fetch memory_delete delete_key fetch_by format_facts
  memory_fetch-memory_delete k q = rw (k, q, retain-not (is_fact user_id key) facts) refl
    where
      retain-not : (p : Fact → Bool) (fs : List Fact) → retain p (retain (λ f. not (p f)) fs) ≡ []
      retain-not p [] = refl
      retain-not p (f ∷ fs) = ground (arith, retain-not p fs)
