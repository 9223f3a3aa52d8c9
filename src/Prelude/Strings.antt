-- ===== src/Prelude/Strings.antt =====
-- A Python `str` as the list of its code points.
use Prim.Native.Nat.{ℕ}
use Prim.Native.Char.{code}
use Prim.Native.String.{String}
use mathlib.Core.Path.{◌≡◌, refl}
use native.Mathlib.Omega.{arith}
use mathlib.Core.Logic.{◌↔◌}
use mathlib.Core.Bool.{Bool, true, false, ◌&&◌, ◌||◌}
use mathlib.Core.List.{List, [], ◌∷◌, ◌++◌}
use news_project.Prelude.Tests.{ltb, leb, nat_beq, if◌then◌else◌}
use news_project.Prelude.Lists.{all, is_empty}
use news_project.Prelude.Equality.{Comparable, nat_eq, list_beq, list_beq_iff}

abbrev pub Text : Type 0
Text = List ℕ

abbrev pub codes : String → Text
codes String.[] = []
codes (String.◌∷◌ c s) = code c ∷ codes s

unfoldable pub text_beq : Text → Text → Bool
unfolding list_beq
text_beq = list_beq nat_eq

pub text_beq_iff : (a b : Text) → (text_beq a b ≡ true) ↔ (a ≡ b)
unfolding text_beq
text_beq_iff = list_beq_iff nat_eq

instance abbrev pub text_eq : Comparable Text
text_eq = record { same = text_beq; same_iff = text_beq_iff }

-- `s.startswith(prefix)`
unfoldable pub starts_with : Text → Text → Bool
starts_with [] s = true
starts_with (p ∷ ps) [] = false
starts_with (p ∷ ps) (c ∷ s) = nat_eq.same p c && starts_with ps s

-- `s.isascii()`
unfoldable pub is_ascii : Text → Bool
unfolding all
is_ascii = all (λ c. ltb c 128)

-- `c.isspace()`, on the code points that `str.strip` removes
unfoldable pub is_space : ℕ → Bool
is_space c =
    (leb 9 c && leb c 13)
    || (leb 28 c && leb c 32)
    || nat_beq c 133
    || nat_beq c 160
    || nat_beq c 5760
    || (leb 8192 c && leb c 8202)
    || nat_beq c 8232
    || nat_beq c 8233
    || nat_beq c 8239
    || nat_beq c 8287
    || nat_beq c 12288

-- `s.rstrip()`
unfoldable pub rstrip : Text → Text
unfolding is_space
rstrip [] = []
rstrip (c ∷ s) = let rest = rstrip s in if is_space c && is_empty rest then [] else c ∷ rest

-- `s.lstrip()`
unfoldable pub lstrip : Text → Text
unfolding is_space
lstrip [] = []
lstrip (c ∷ s) = let rest = lstrip s in if is_space c then rest else c ∷ s

-- `s.strip()`
unfoldable pub strip : Text → Text
unfolding lstrip rstrip
strip s = lstrip (rstrip s)

-- `sep.join(parts)`
unfoldable pub join : Text → List Text → Text
join sep [] = []
join sep (x ∷ []) = x
join sep (x ∷ y ∷ rest) = x ++ (sep ++ join sep (y ∷ rest))

pub starts_with_sound : (p s : Text) → starts_with p s ≡ true → (post : Text) × (s ≡ p ++ post)
unfolding starts_with
starts_with_sound [] s h = (s, refl)
starts_with_sound (x ∷ p) [] h = cc
starts_with_sound (x ∷ p) (y ∷ s) h =
    let (post, e) = starts_with_sound p s (ground arith) in (post, ground arith)

pub starts_with_complete : (p post : Text) → starts_with p (p ++ post) ≡ true
unfolding starts_with
starts_with_complete [] post = refl
starts_with_complete (x ∷ p) post = ground (arith, starts_with_complete p post)
