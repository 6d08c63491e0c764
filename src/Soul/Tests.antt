-- ===== src/Soul/Tests.antt =====
-- A soul that is read back, and the parsers of its traits.
use edgeclaw.Prelude.{String, ◌≡◌, refl, ◌↔◌}
use edgeclaw.Prelude.Text.{contains, strip_prefix}
use edgeclaw.Types.{Result, ok}
use edgeclaw.Soul.{Soul, SoulFrontmatter, default, parse_soul_md, to_soul_md}
use edgeclaw.Soul.Archetype
use edgeclaw.Soul.RoundTrip.{given, read_back, parse_soul_md-to_soul_md}

archetype_iff_test :
    (Archetype.from_str "mentor" ≡ ok Archetype.mentor)
    ↔ ("mentor" ≡ Archetype.display Archetype.mentor)
archetype_iff_test = Archetype.archetype_iff "mentor" Archetype.mentor

abbrev atlas : Soul
atlas = record default { name = "Atlas"; personality = "- Likes maps" }

abbrev reader : String → Result SoulFrontmatter String
reader s = ok (given atlas)

parse_soul_md-to_soul_md_example :
    parse_soul_md reader (to_soul_md atlas)
    ≡ ok (record atlas { personality = read_back "- Likes maps" })
unfolding contains strip_prefix
parse_soul_md-to_soul_md_example = parse_soul_md-to_soul_md reader atlas refl refl
