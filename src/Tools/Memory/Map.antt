-- ===== src/Tools/Memory/Map.antt =====
-- The facts of each user as a map from keys, which the memory tools implement.
use edgeclaw.Prelude.{
  String, ◌≡◌, refl, ap, ◌∙◌, Option, none, some, false, Bool-cases, not, ◌&&◌, List, [], ◌∷◌, find,
  retain, str_eq, str_eq_refl, eq_iff, arith, inl, inr, if◌then◌else◌,
}
use mathlib.Core.Path.{fun_ext}
use edgeclaw.Prelude.Text.{◌<>◌}
use edgeclaw.Prelude.Int.{ℤ}
use edgeclaw.Json.{Value, get_str}
use edgeclaw.Types.{ToolResult, ok, require_str, ok_result}
use edgeclaw.Tools.Memory.{
  Fact, Sqlite, tag_text, fact_line, format_facts, is_fact, upsert, store_with, store_key,
  memory_store, fetch_by, memory_fetch, delete_key, memory_delete,
}
use edgeclaw.Tools.Memory.Laws.{Unique, is_fact-same, retain-same}

-- What is known under a key: a value, and perhaps tags.
abbrev pub Known : Type 0
Known = String → Option (String × Option String)

abbrev pub content_of : Option Fact → Option (String × Option String)
content_of none = none
content_of (some f) = some (f.value, f.tags)

abbrev pub known : String → List Fact → Known
known user_id facts key = content_of (find (is_fact user_id key) facts)

-- A map changed at one key.
abbrev pub update : Known → String → Option (String × Option String) → Known
update m key v k = if str_eq key k then v else m k

-- What a fetch replies of an entry.
abbrev pub reply_of : String → Option (String × Option String) → ToolResult
reply_of key none = ok_result "No facts found."
reply_of key (some (value, tags)) = ok_result ("- " <> key <> ": " <> value <> tag_text tags)

known-upsert :
    (user_id key value : String) (tags : Option String) (now : ℤ) (u k : String) (facts : List Fact)
    → known u (upsert user_id key value tags now facts) k
      ≡ (if str_eq user_id u && str_eq key k then some (value, tags) else known u facts k)
unfolding upsert is_fact
known-upsert user_id key value tags now u k [] = ground arith
known-upsert user_id key value tags now u k (f ∷ facts) = ground (
  arith,
  eq_iff f.user_id user_id,
  eq_iff f.key key,
  eq_iff f.user_id u,
  eq_iff f.key k,
  eq_iff user_id u,
  eq_iff key k,
  known-upsert user_id key value tags now u k facts,
)

known-retain :
    (user_id key u k : String) (facts : List Fact)
    → known u (retain (λ f. not (is_fact user_id key f)) facts) k
      ≡ (if str_eq user_id u && str_eq key k then none else known u facts k)
unfolding is_fact
known-retain user_id key u k [] = ground arith
known-retain user_id key u k (f ∷ facts) = ground (
  arith,
  eq_iff f.user_id user_id,
  eq_iff f.key key,
  eq_iff f.user_id u,
  eq_iff f.key k,
  eq_iff user_id u,
  eq_iff key k,
  known-retain user_id key u k facts,
)

-- A fetch by a key replies what is known of it, where the key is that of at most one fact.
fetch-known :
    (user_id key : String) (facts : List Fact)
    → Unique facts
    → format_facts (retain (is_fact user_id key) facts) ≡ reply_of key (known user_id facts key)
fetch-known user_id key [] u = unfold format_facts in refl
fetch-known user_id key (f ∷ facts) u = elim (Bool-cases (is_fact user_id key f)) [
  | inl e ↦
      let (p, q) = is_fact-same user_id key f e in
      rw (e, retain-same user_id key f.value f.tags f.created_at f facts u.0 e)
        (unfold format_facts fact_line in
          ap (λ k. ok_result ("- " <> k <> ": " <> f.value <> tag_text f.tags)) q)
  | inr e ↦ rw e (fetch-known user_id key facts u.1)
]

module _ (sqlite : Sqlite) (user_id key value : String) (input : Value) (facts : List Fact) where
  -- The memory tools implement a map for each user, where at most one fact has each user and key. Storing changes the user's
  -- map at the key, to the value and the tags; deleting changes it there to nothing; a fetch by any key replies what the map
  -- has of it; other users' maps stay the same under both.
  pub memory_tools-Map :
      (now : ℤ) (query : Value) (k other : String)
      → Unique facts
      → require_str input "key" ≡ ok key
      → require_str input "value" ≡ ok value
      → get_str query "key" ≡ some k
      → str_eq user_id other ≡ false
      → (known user_id (memory_store sqlite user_id input now facts).1
          ≡ update (known user_id facts) key (some (value, get_str input "tags")))
        × (known user_id (memory_delete sqlite user_id input facts).1
            ≡ update (known user_id facts) key none)
        × (memory_fetch sqlite user_id query facts ≡ reply_of k (known user_id facts k))
        × (known other (memory_store sqlite user_id input now facts).1 ≡ known other facts)
        × (known other (memory_delete sqlite user_id input facts).1 ≡ known other facts)
  unfolding memory_store store_key store_with memory_delete delete_key memory_fetch fetch_by
  memory_tools-Map now query k other u p v q d =
      rw (p, v, q)
        (
          fun_ext (λ j.
              known-upsert user_id key value (get_str input "tags") now user_id j facts
              ∙ rw (str_eq_refl user_id) refl),
          fun_ext (λ j. known-retain user_id key user_id j facts ∙ rw (str_eq_refl user_id) refl),
          fetch-known user_id k facts u,
          fun_ext (λ j.
              known-upsert user_id key value (get_str input "tags") now other j facts ∙ rw d refl),
          fun_ext (λ j. known-retain user_id key other j facts ∙ rw d refl),
        )
