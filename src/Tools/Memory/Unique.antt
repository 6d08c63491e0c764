-- ===== src/Tools/Memory/Unique.antt =====
-- The unique constraint of the table, which the memory tools keep.
use edgeclaw.Prelude.{
  String, ◌≡◌, refl, ◌∙◌, Option, Bool, false, Bool-cases, not, ◌&&◌, List, [], ◌∷◌, retain, str_eq,
  eq_iff, arith, inl, inr,
}
use edgeclaw.Prelude.Int.{ℤ}
use edgeclaw.Json.{Value, get_str}
use edgeclaw.Types.{Result, ToolResult, ok, err, require_str}
use edgeclaw.Tools.Memory.{
  Fact, Sqlite, is_fact, upsert, store_with, store_key, memory_store, delete_key, memory_delete,
}
use edgeclaw.Tools.Memory.Laws.{Unique, upsert-here, upsert-past, retain-same, retain-upsert-other}

is_fact_comm :
    (user_id key : String) (f : Fact)
    → is_fact user_id key f ≡ false
    → (str_eq user_id f.user_id && str_eq key f.key) ≡ false
unfolding is_fact
is_fact_comm user_id key f h =
    ground (
      arith,
      eq_iff f.user_id user_id,
      eq_iff f.key key,
      eq_iff user_id f.user_id,
      eq_iff key f.key,
    )

retain-retain :
    (p q : Fact → Bool) (facts : List Fact) → retain p facts ≡ [] → retain p (retain q facts) ≡ []
retain-retain p q [] h = refl
retain-retain p q (f ∷ facts) h = ground (arith, retain-retain p q facts)

retain-Unique : (q : Fact → Bool) (facts : List Fact) → Unique facts → Unique (retain q facts)
retain-Unique q [] u = u
retain-Unique q (f ∷ facts) u = elim (Bool-cases (q f)) [
  | inl e ↦ rw e (retain-retain (is_fact f.user_id f.key) q facts u.0, retain-Unique q facts u.1)
  | inr e ↦ rw e (retain-Unique q facts u.1)
]

upsert-Unique :
    (user_id key value : String) (tags : Option String) (now : ℤ) (facts : List Fact)
    → Unique facts
    → Unique (upsert user_id key value tags now facts)
upsert-Unique user_id key value tags now [] u = unfold upsert in (refl, tt)
upsert-Unique user_id key value tags now (f ∷ facts) u = elim (Bool-cases (is_fact user_id key f)) [
  | inl e ↦
      rw (upsert-here user_id key value tags now f facts e)
        (retain-same user_id key value tags now f facts u.0 e, u.1)
  | inr e ↦ rw (upsert-past user_id key value tags now f facts e) (
    retain-upsert-other user_id key value tags now f.user_id f.key facts
          (is_fact_comm user_id key f e)
        ∙ u.0,
    upsert-Unique user_id key value tags now facts u.1,
  )
]

module _ (sqlite : Sqlite) (user_id : String) (input : Value) (facts : List Fact) where
  -- Whatever their input, the tools that store and that delete a fact leave at most one fact for each user and key.
  pub memory_tools-Unique :
      (now : ℤ)
      → Unique facts
      → Unique (memory_store sqlite user_id input now facts).1
        × Unique (memory_delete sqlite user_id input facts).1
  unfolding memory_store memory_delete
  memory_tools-Unique now u = (by_key (require_str input "key"), gone (require_str input "key"))
    where
      by_value :
          (key : String) (v : Result String ToolResult)
          → Unique (store_with sqlite user_id key (get_str input "tags") now v facts).1
      by_value key (err e) = unfold store_with in u
      by_value key (ok value) =
          unfold store_with in upsert-Unique user_id key value (get_str input "tags") now facts u

      by_key :
          (k : Result String ToolResult) → Unique (store_key sqlite user_id input now k facts).1
      by_key (err e) = unfold store_key in u
      by_key (ok key) = unfold store_key in by_value key (require_str input "value")

      gone : (k : Result String ToolResult) → Unique (delete_key sqlite user_id k facts).1
      gone (err e) = unfold delete_key in u
      gone (ok key) = unfold delete_key in retain-Unique (λ f. not (is_fact user_id key f)) facts u
