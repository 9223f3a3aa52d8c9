-- ===== src/Common/Tests.antt =====
-- The coercions at two values.
use news_project.Prelude.{
  ◌+◌, ◌&&◌, ◌≡◌, refl, leb, if◌then◌else◌, map, some, Text, codes, text_beq,
}
use news_project.Prelude.Dict.{lookup}
use news_project.Common.Enums.{us, EventType}
use news_project.Common.Coerce.{safe_event_type, safe_market}

abbrev ascii_lower : Text → Text
ascii_lower = map (λ c. if leb b'A' c && leb c b'Z' then c + 32 else c)

two_values :
    (safe_event_type ascii_lower (some (codes "Filing")) ≡ EventType.filing)
    × (safe_market ascii_lower (some (codes "US")) ≡ some us)
unfolding safe_event_type safe_market lookup text_beq
two_values = (refl, refl)
