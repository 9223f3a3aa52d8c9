-- ===== src/Observability/Quote.antt =====
-- `urllib.parse.quote(text, safe="")`, which src/shared/observability/alert.py calls: the UTF-8 bytes of
-- a text, percent-encoded but for letters, digits and `_.-~`.
use news_project.Prelude.{
  ℕ, ◌+◌, ◌/◌, ◌%◌, Bool, ◌&&◌, ◌||◌, List, [], ◌∷◌, leb, ltb, nat_beq, if◌then◌else◌, gather, Text,
}

-- the bytes of a code point
unfoldable pub utf8 : ℕ → List ℕ
utf8 c =
    if ltb c 128
    then c ∷ []
    else if ltb c 2048
    then (192 + c / 64) ∷ (128 + c % 64) ∷ []
    else if ltb c 65536
    then (224 + c / 4096) ∷ (128 + c / 64 % 64) ∷ (128 + c % 64) ∷ []
    else (240 + c / 262144) ∷ (128 + c / 4096 % 64) ∷ (128 + c / 64 % 64) ∷ (128 + c % 64) ∷ []

-- letters, digits, `_`, `.`, `-` and `~`
unfoldable pub is_unreserved : ℕ → Bool
is_unreserved b =
    (leb 97 b && leb b 122)
    || (leb 65 b && leb b 90)
    || (leb 48 b && leb b 57)
    || nat_beq b 95
    || nat_beq b 46
    || nat_beq b 45
    || nat_beq b 126

-- a digit in base 16, in upper case
unfoldable pub hex : ℕ → ℕ
hex n = if ltb n 10 then 48 + n else 55 + n

unfoldable pub quote_byte : ℕ → Text
unfolding is_unreserved hex
quote_byte b = if is_unreserved b then b ∷ [] else 37 ∷ hex (b / 16) ∷ hex (b % 16) ∷ []

unfoldable pub quote : Text → Text
unfolding utf8 quote_byte
quote s = gather (λ c. gather quote_byte (utf8 c)) s
