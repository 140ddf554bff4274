-- ===== src/Authz/TokenFree/Parser.antt =====
-- authz/token_free.py: _Parser. A rule maps the tokens that are left and the tokens spent to a node
-- and what is left then; `_peek` past the last token does not occur, and is the end here. Of the rules
-- that spend a level of the nesting budget, each recurs on the levels that are left.
pub mod Progress
use tai_skeleton.Base.{
  ℕ, zero, suc, ◌+◌, Bool, true, false, ◌&&◌, ◌||◌, not, Option, none, some, List, [], ◌∷◌, String,
  Text, codes, ◌==◌, nat_eq, list_eq, elem, lookup, is_empty, length, if◌then◌else◌, Result, ok,
  raise, token_free_error, ◌>>=◌, ◌>>◌, raise_if, require, Step, finished, next, loop,
}
use tai_skeleton.Authz.TokenFree.Syntax.{
  Node, root, constant, string, variable, projection, call, binary, negate, bind, try_only,
  try_catch, object, empty_array, array, Nodes, no_nodes, node, Suffix, field, each, index,
  optional, Suffixes, no_suffixes, suffix,
}
use tai_skeleton.Authz.TokenFree.Lexer.{
  Kind, field_token, ident_token, variable_token, number_token, string_token, format_token,
  operator_token, end_token, Interpolation, Token, lex,
}

pub record Parsing : Type 0 where
  pub tokens : List Token
  pub spent : ℕ

abbrev pub Rule : Type 0 → Type 0
Rule A = Parsing → Result (A × Parsing)

abbrev pub peek_in : List Token → Token
peek_in [] = record { kind = end_token; text = []; position = 0; interpolations = [] }
peek_in (t ∷ ts) = t

abbrev pub peek : Parsing → Token
peek s = peek_in s.tokens

abbrev pub tail : List Token → List Token
tail [] = []
tail (t ∷ ts) = ts

abbrev pub advance : Parsing → Parsing
advance s = record { tokens = tail s.tokens; spent = s.spent }

-- the text of a token of that kind
abbrev pub operator_of : Kind → Text → Option Text
operator_of operator_token text = some text
operator_of _ text = none

abbrev pub word_of : Kind → Text → Option Text
word_of ident_token text = some text
word_of _ text = none

abbrev pub variable_of : Kind → Text → Option Text
variable_of variable_token text = some text
variable_of _ text = none

abbrev pub among : List Text → Option Text → Option Text
among texts none = none
among texts (some text) = if elem text texts then some text else none

abbrev pub is_found : Option Text → Bool
is_found none = false
is_found (some t) = true

-- the token that is next, if it is one of these operators, or that keyword
unfoldable pub next_operator : List Text → Parsing → Option Text
next_operator texts s = among texts (operator_of (peek s).kind (peek s).text)

unfoldable pub next_keyword : Text → Parsing → Option Text
next_keyword word s = among (word ∷ []) (word_of (peek s).kind (peek s).text)

abbrev pub at_operator : String → Parsing → Bool
at_operator text s = is_found (next_operator (codes text ∷ []) s)

abbrev pub at_keyword : String → Parsing → Bool
at_keyword word s = is_found (next_keyword (codes word) s)

-- _expect_operator, which leaves the state after the operator
abbrev pub expect_operator : String → Parsing → Result Parsing
expect_operator text s = if at_operator text s then ok (advance s) else raise token_free_error

abbrev comparisons : List Text
comparisons = codes "==" ∷ codes "!=" ∷ codes "<" ∷ codes "<=" ∷ codes ">" ∷ codes ">=" ∷ []

abbrev additive_operators : List Text
additive_operators = codes "+" ∷ codes "-" ∷ []

abbrev multiplicative_operators : List Text
multiplicative_operators = codes "*" ∷ codes "/" ∷ codes "%" ∷ []

-- a round of `left = left op part`
unfoldable pub chain_round :
    (Parsing → Option Text)
    → Rule Node
    → Node × Parsing
    → Result (Step (Node × Parsing) (Node × Parsing))
chain_round test part (left, s) = elim (test s) [
  | none ↦ ok (finished (left, s))
  | some op ↦ do
    (right, s') ← part (advance s)
    ok (next (binary (peek s).position op left right, s'))
]

-- parts with left-associative operators between them
unfoldable pub chain : (Parsing → Option Text) → Rule Node → Rule Node
unfolding chain_round
chain test part s = do
  (left, s') ← part s
  loop (suc (length s'.tokens)) (chain_round test part) (left, s')

unfoldable pub multiplicative : Rule Node → Rule Node
unfolding chain next_operator
multiplicative unary = chain (next_operator multiplicative_operators) unary

unfoldable pub additive : Rule Node → Rule Node
unfolding chain multiplicative next_operator
additive unary = chain (next_operator additive_operators) (multiplicative unary)

-- one comparison at most: `a < b < c` does not parse
unfoldable pub compared : Rule Node → Node × Parsing → Result (Node × Parsing)
unfolding next_operator
compared part (left, s) = elim (next_operator comparisons s) [
  | none ↦ ok (left, s)
  | some op ↦ do (right, s') ← part (advance s); ok (binary (peek s).position op left right, s')
]

unfoldable pub comparison : Rule Node → Rule Node
unfolding additive compared
comparison unary s = additive unary s >>= λ left. compared (additive unary) left

unfoldable pub conjunction : Rule Node → Rule Node
unfolding chain comparison next_keyword
conjunction unary = chain (next_keyword (codes "and")) (comparison unary)

unfoldable pub disjunction : Rule Node → Rule Node
unfolding chain conjunction next_keyword
disjunction unary = chain (next_keyword (codes "or")) (conjunction unary)

-- _comma
unfoldable pub sequence : Rule Node → Rule Node
unfolding chain next_operator
sequence alternative = chain (next_operator (codes "," ∷ [])) alternative

-- a node at the end
unfoldable pub add_node : Nodes → Node → Nodes
add_node no_nodes n = node n no_nodes
add_node (node m ms) n = node m (add_node ms n)

unfoldable pub add_suffix : Suffixes → Suffix → Suffixes
add_suffix no_suffixes s = suffix s no_suffixes
add_suffix (suffix r rs) s = suffix r (add_suffix rs s)

unfoldable pub count_nodes : Nodes → ℕ
count_nodes no_nodes = 0
count_nodes (node n ns) = suc (count_nodes ns)

-- _BUILTIN_ARITIES
abbrev pub builtin_arities : List (Text × List ℕ)
builtin_arities =
    (codes "not", 0 ∷ [])
    ∷ (codes "length", 0 ∷ [])
    ∷ (codes "ascii_downcase", 0 ∷ [])
    ∷ (codes "startswith", 1 ∷ [])
    ∷ (codes "endswith", 1 ∷ [])
    ∷ (codes "contains", 1 ∷ [])
    ∷ (codes "test", 1 ∷ 2 ∷ [])
    ∷ (codes "IN", 1 ∷ 2 ∷ [])
    ∷ (codes "map", 1 ∷ [])
    ∷ (codes "any", 0 ∷ 1 ∷ 2 ∷ [])
    ∷ (codes "all", 0 ∷ 1 ∷ 2 ∷ [])
    ∷ []

abbrev pub keyword_literals : List Text
keyword_literals = codes "true" ∷ codes "false" ∷ codes "null" ∷ []

abbrev pub named_refusals : List Text
named_refusals =
    codes "def"
    ∷ codes "env"
    ∷ codes "input"
    ∷ codes "inputs"
    ∷ codes "now"
    ∷ codes "localtime"
    ∷ codes "gmtime"
    ∷ []

abbrev pub named_variable_refusals : List Text
named_variable_refusals = codes "ENV" ∷ codes "__loc__" ∷ []
