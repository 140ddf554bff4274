-- ===== src/Authz/TokenFree/Characters.antt =====
-- authz/token_free.py: the characters of a condition, and how many of them a token takes.
use tai_skeleton.Base.{
  ℕ, suc, ◌+◌, Bool, ◌&&◌, ◌||◌, not, Option, none, some, List, [], ◌∷◌, Text, codes, nat_eq,
  list_eq, eqb, ltb, leb, any, starts_with, drop, if◌then◌else◌, Result, token_free_error, raise_if,
}

-- the characters of _assert_source_shape
abbrev is_refused_char : ℕ → Bool
is_refused_char c = eqb c b'#' || (ltb c 0x20 || ltb b'~' c)

unfoldable pub assert_source_shape : Text → Result (Unit {0})
assert_source_shape text = raise_if (any is_refused_char text) token_free_error

-- text[i], if there is one
abbrev pub char_at : Text → ℕ → Option ℕ
char_at text i = elim (drop i text) [ [] ↦ none | c ∷ cs ↦ some c ]

abbrev pub first_char : Text → ℕ
first_char [] = 0
first_char (c ∷ cs) = c

-- how many characters in front pass the test
unfoldable pub prefix_length : (ℕ → Bool) → Text → ℕ
prefix_length p [] = 0
prefix_length p (c ∷ cs) = if p c then suc (prefix_length p cs) else 0

abbrev pub is_digit : ℕ → Bool
is_digit c = leb b'0' c && leb c b'9'

abbrev pub is_ident_start : ℕ → Bool
is_ident_start c = (leb b'a' c && leb c b'z') || ((leb b'A' c && leb c b'Z') || eqb c b'_')

abbrev pub is_ident_char : ℕ → Bool
is_ident_char c = is_ident_start c || is_digit c

-- _STRING_ESCAPES
abbrev pub string_escapes : List (ℕ × ℕ)
string_escapes =
    (b'"', b'"')
    ∷ (0x5C, 0x5C)
    ∷ (b'/', b'/')
    ∷ (b'b', 8)
    ∷ (b'f', 12)
    ∷ (b'n', 10)
    ∷ (b'r', 13)
    ∷ (b't', 9)
    ∷ []

-- the characters of a fraction, a dot and digits
unfoldable fraction_length : Text → ℕ
unfolding prefix_length
fraction_length [] = 0
fraction_length (c ∷ cs) =
    let digits = prefix_length is_digit cs in
    if eqb c b'.' && not (eqb digits 0) then suc digits else 0

-- the digits after an exponent's letter, which may have a sign
unfoldable signed_digits : Text → ℕ
unfolding prefix_length
signed_digits [] = 0
signed_digits (c ∷ cs) =
    if eqb c b'+' || eqb c b'-'
    then (let digits = prefix_length is_digit cs in if eqb digits 0 then 0 else suc digits)
    else prefix_length is_digit (c ∷ cs)

unfoldable exponent_length : Text → ℕ
unfolding signed_digits
exponent_length [] = 0
exponent_length (c ∷ cs) =
    let digits = signed_digits cs in
    if (eqb c b'e' || eqb c b'E') && not (eqb digits 0) then suc digits else 0

-- the characters that _lex_number takes
unfoldable pub number_length : Text → ℕ
unfolding prefix_length fraction_length exponent_length drop
number_length s =
    let whole = prefix_length is_digit s in
    let fraction = fraction_length (drop whole s) in
    whole + fraction + exponent_length (drop (whole + fraction) s)

-- _OPERATORS
abbrev pub operators : List Text
operators =
    codes "?//"
    ∷ codes "//="
    ∷ codes "|="
    ∷ codes "+="
    ∷ codes "-="
    ∷ codes "*="
    ∷ codes "/="
    ∷ codes "%="
    ∷ codes "=="
    ∷ codes "!="
    ∷ codes "<="
    ∷ codes ">="
    ∷ codes "//"
    ∷ codes ".."
    ∷ codes "="
    ∷ codes "<"
    ∷ codes ">"
    ∷ codes "|"
    ∷ codes ","
    ∷ codes "+"
    ∷ codes "-"
    ∷ codes "*"
    ∷ codes "/"
    ∷ codes "%"
    ∷ codes "("
    ∷ codes ")"
    ∷ codes "["
    ∷ codes "]"
    ∷ codes "{"
    ∷ codes "}"
    ∷ codes ":"
    ∷ codes ";"
    ∷ codes "?"
    ∷ codes "."
    ∷ []

-- next((op for op in ops if s.startswith(op)), None)
unfoldable pub first_operator : List Text → Text → Option Text
first_operator [] s = none
first_operator (op ∷ ops) s = if starts_with s op then some op else first_operator ops s
