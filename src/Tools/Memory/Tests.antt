-- ===== src/Tools/Memory/Tests.antt =====
-- The memory tools on a table of two facts.
use edgeclaw.Prelude.{◌≡◌, refl, none, some, true, List, [], ◌∷◌}
use edgeclaw.Prelude.Int.{pos}
use edgeclaw.Json.{Value, object, string, field, end}
use edgeclaw.Types.{ok, ok_result, err_result, require_str}
use edgeclaw.Tools.Memory.{
  Fact, Sqlite, fact_line, is_fact, format_facts, fetch_by, memory_store, memory_fetch,
  memory_delete, list_facts, selected, memory_list,
}
use edgeclaw.Tools.Memory.Laws.{Unique}
use edgeclaw.Tools.Memory.Map.{known, update, reply_of, memory_tools-Map}
use edgeclaw.Tools.Memory.Unique.{memory_tools-Unique}

-- A pattern that every tag passes, and a table that is in order.
abbrev sqlite : Sqlite
sqlite = record { like = λ tags pattern. true; newest = λ n facts. facts }

abbrev facts : List Fact
facts =
    record {
      user_id = "ada";
      key = "city";
      value = "Paris";
      tags = some "home";
      created_at = pos 1;
    }
    ∷ record { user_id = "bob"; key = "city"; value = "Oslo"; tags = none; created_at = pos 2 }
    ∷ []

abbrev input : Value
input = object (field "key" (string "city") (field "value" (string "Rome") end))

abbrev query : Value
query = object (field "key" (string "city") end)

facts-Unique : Unique facts
unfolding is_fact
facts-Unique = (refl, (refl, tt))

tagged :
    memory_list sqlite "ada" (object (field "tag" (string "ho") end)) facts
    ≡ ok_result "- city: Paris [tags: home]"
unfolding memory_list selected list_facts format_facts fact_line
tagged = refl

neither :
    memory_fetch sqlite "ada" (object end) facts
    ≡ err_result "Provide either 'key' or 'tag' to search."
unfolding memory_fetch fetch_by
neither = refl

city-key : require_str input "key" ≡ ok "city"
unfolding require_str
city-key = refl

city-value : require_str input "value" ≡ ok "Rome"
unfolding require_str
city-value = refl

memory_tools-Map_example :
    (known "ada" (memory_store sqlite "ada" input (pos 3) facts).1
      ≡ update (known "ada" facts) "city" (some ("Rome", none)))
    × (known "ada" (memory_delete sqlite "ada" input facts).1
        ≡ update (known "ada" facts) "city" none)
    × (memory_fetch sqlite "ada" query facts ≡ reply_of "city" (known "ada" facts "city"))
    × (known "bob" (memory_store sqlite "ada" input (pos 3) facts).1 ≡ known "bob" facts)
    × (known "bob" (memory_delete sqlite "ada" input facts).1 ≡ known "bob" facts)
memory_tools-Map_example =
    memory_tools-Map sqlite "ada" "city" "Rome" input facts (pos 3) query "city" "bob" facts-Unique
      city-key city-value refl refl

memory_tools-Unique_test :
    Unique (memory_store sqlite "ada" input (pos 3) facts).1
    × Unique (memory_delete sqlite "ada" input facts).1
memory_tools-Unique_test = memory_tools-Unique sqlite "ada" input facts (pos 3) facts-Unique
