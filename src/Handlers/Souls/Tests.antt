-- ===== src/Handlers/Souls/Tests.antt =====
-- Souls that are created, patched and generated.
use edgeclaw.Prelude.{◌≡◌, refl, none, some}
use edgeclaw.Prelude.Int.{pos}
use edgeclaw.Prelude.Text.{trim, strip_prefix, strip_suffix}
use edgeclaw.Json.{object, string, field, end}
use edgeclaw.Types.{ok}
use edgeclaw.Fixtures.{host, config, world, no_tables}
use edgeclaw.Handlers.Souls.{CreateSoulRequest, PatchSoulRequest, create_soul, patch_soul}
use edgeclaw.Handlers.Souls.Generate.{json_text, without_fence, generate_soul}
use edgeclaw.Handlers.Souls.Laws.{Shown, create_patch_soul-Shown}
use edgeclaw.Handlers.Souls.Served.{Served, generate_soul-Served}

abbrev create : CreateSoulRequest
create = record {
  user_id = "ann";
  name = "Ada";
  personality = none;
  archetype = some "mentor";
  tone = none;
  verbosity = none;
  decision_style = none;
}

abbrev patch : PatchSoulRequest
patch = record {
  user_id = "ann";
  name = none;
  personality = none;
  archetype = some "pirate";
  tone = none;
  verbosity = none;
  decision_style = none;
}

fenced : json_text "```json\n{}\n```\n" ≡ "{}"
unfolding json_text without_fence trim strip_prefix strip_suffix
fenced = refl

create_patch_soul-Shown_example :
    Shown "ann" no_tables (create_soul create (pos 1) (pos 2) no_tables)
    × Shown "ann" no_tables (patch_soul patch (pos 1) (pos 2) no_tables)
create_patch_soul-Shown_example = create_patch_soul-Shown create patch (pos 1) (pos 2) no_tables

generate_soul-Served_example : Served "ann" (
    generate_soul host
      (λ w. pos 3)
      (λ s. ok (object (field "tone" (string "formal") end)))
      config
      (record { user_id = "ann"; description = "kind" })
      world)
generate_soul-Served_example =
    generate_soul-Served host (λ w. pos 3) (λ s. ok (object (field "tone" (string "formal") end)))
      config (record { user_id = "ann"; description = "kind" }) world
