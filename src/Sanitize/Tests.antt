-- ===== src/Sanitize/Tests.antt =====
-- Tests of the decoding, and its theorems at concrete inputs.
use jolyne.Base.{◌≡◌, refl}
use jolyne.Sanitize.{decode_entities, decode_from, entity_at}
use jolyne.Sanitize.Entities.{html_escape, decode_entities-html_escape}

decodes_once : decode_entities "a&amp;lt;b &#39;x&#34; &#x27;&" ≡ "a&lt;b 'x\" &#x27;&"
unfolding decode_entities decode_from entity_at
decodes_once = refl

html_escape_example : decode_entities (html_escape "<b>&'\"") ≡ "<b>&'\""
html_escape_example = decode_entities-html_escape "<b>&'\""
