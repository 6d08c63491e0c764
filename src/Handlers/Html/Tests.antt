-- ===== src/Handlers/Html/Tests.antt =====
-- A text with markup in it.
use edgeclaw.Prelude.{◌≡◌, refl, some}
use edgeclaw.Prelude.Text.{size}
use edgeclaw.Handlers.Html.{html_escape, replace_char}
use edgeclaw.Handlers.Html.Laws.{displayed, displayed-html_escape}

script : html_escape "<b>'a' & \"b\"</b>" ≡ "&lt;b&gt;&#x27;a&#x27; &amp; &quot;b&quot;&lt;/b&gt;"
unfolding html_escape replace_char
script = refl

displayed-html_escape_example : displayed (size "<a>&") (html_escape "<a>&") ≡ some "<a>&"
displayed-html_escape_example = displayed-html_escape "<a>&"
