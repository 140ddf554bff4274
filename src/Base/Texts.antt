-- ===== src/Base/Texts.antt =====
-- Texts as lists of code points, for code that walks a text character by character.
use Prim.Native.Nat.{ℕ, ◌+◌, ◌-◌}
use Prim.Native.Char.{code}
use Prim.Native.String.{String}
use mathlib.Core.Bool.{Bool, true, false, ◌&&◌, ◌||◌}
use mathlib.Core.List.{List, [], ◌∷◌, ◌++◌}
use tai_skeleton.Base.Tests.{eqb, ltb, leb, if◌then◌else◌}

abbrev pub Text : Type 0
Text = List ℕ

abbrev pub codes : String → Text
codes String.[] = []
codes (String.◌∷◌ c s) = code c ∷ codes s

-- s.startswith(p)
unfoldable pub starts_with : Text → Text → Bool
starts_with s [] = true
starts_with [] (c ∷ p) = false
starts_with (d ∷ s) (c ∷ p) = eqb d c && starts_with s p

-- s < t, by code points
unfoldable pub text_lt : Text → Text → Bool
text_lt s [] = false
text_lt [] (d ∷ t) = true
text_lt (c ∷ s) (d ∷ t) = ltb c d || (eqb c d && text_lt s t)

-- s.upper(), exact as far as the result is compared with ASCII words: of the other code points
-- only those below map into ASCII letters (ß ı ſ ﬀ ﬁ ﬂ ﬃ ﬄ ﬅ ﬆ).
abbrev pub upper_char : ℕ → Text
upper_char c =
    if leb b'a' c && leb c b'z'
    then (c - 32) ∷ []
    else if eqb c 0xDF
    then codes "SS"
    else if eqb c 0x131
    then codes "I"
    else if eqb c 0x17F
    then codes "S"
    else if eqb c 0xFB00
    then codes "FF"
    else if eqb c 0xFB01
    then codes "FI"
    else if eqb c 0xFB02
    then codes "FL"
    else if eqb c 0xFB03
    then codes "FFI"
    else if eqb c 0xFB04
    then codes "FFL"
    else if eqb c 0xFB05 || eqb c 0xFB06
    then codes "ST"
    else c ∷ []

unfoldable pub upper : Text → Text
upper [] = []
upper (c ∷ s) = upper_char c ++ upper s

-- s.lower(), exact as far as the result is compared with ASCII words without i and k
unfoldable pub lower : Text → Text
lower [] = []
lower (c ∷ s) = (if leb b'A' c && leb c b'Z' then c + 32 else c) ∷ lower s
