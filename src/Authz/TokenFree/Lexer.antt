-- ===== src/Authz/TokenFree/Lexer.antt =====
-- authz/token_free.py: the lexer. A text is its code points, an offset of the
-- source counts them. The nesting budget is the number of levels that are left, which is what the
-- nested calls recur on; the token budget is the number of tokens spent. The loops run on fuel.
pub mod Progress
use tai_skeleton.Base.{
  ℕ, zero, suc, ◌+◌, ◌-◌, Bool, true, false, ◌&&◌, ◌||◌, not, Option, none, some, List, [], ◌∷◌,
  ◌++◌, String, Text, codes, ◌==◌, nat_eq, list_eq, eqb, ltb, leb, elem, any, lookup, starts_with,
  take, drop, length, is_empty, if◌then◌else◌, Result, ok, raise, token_free_error, ◌>>=◌, ◌>>◌,
  raise_if, require, Step, finished, next, loop,
}
use tai_skeleton.Authz.TokenFree.Characters.{
  assert_source_shape, char_at, first_char, prefix_length, is_digit, is_ident_start, is_ident_char,
  string_escapes, number_length, operators, first_operator,
}

pub data Kind : Type 0 where
  field_token ident_token variable_token number_token string_token format_token operator_token
        end_token :
      Kind

pub record Interpolation : Type 0 where
  pub start : ℕ
  pub end : ℕ

pub record Token : Type 0 where
  pub kind : Kind
  pub text : Text
  pub position : ℕ
  pub interpolations : List Interpolation

abbrev plain : Kind → Text → ℕ → Token
plain kind text position = record {
  kind = kind;
  text = text;
  position = position;
  interpolations = [];
}

-- the index, the parts and the holes of a string so far
pub record Literal : Type 0 where
  pub index : ℕ
  pub parts : Text
  pub holes : List Interpolation

-- the parentheses that are open in a hole, and the index
pub record Hole : Type 0 where
  pub depth : ℕ
  pub index : ℕ

-- the index, the tokens so far, and how many tokens the condition has spent
pub record Lexing : Type 0 where
  pub index : ℕ
  pub tokens : List Token
  pub spent : ℕ

-- _Budget.spend, and the token that it is spent on
unfoldable pub emit : Lexing → Token → ℕ → Result Lexing
emit s token after =
    if ltb 256 (s.spent + 1)
    then raise token_free_error
    else ok (record { index = after; tokens = s.tokens ++ token ∷ []; spent = s.spent + 1 })

unfoldable pub add_token : Lexing → Option Token → ℕ → Result (Step Lexing Lexing)
unfolding emit
add_token s none after = ok (next (record { index = after; tokens = s.tokens; spent = s.spent }))
add_token s (some token) after = emit s token after >>= λ s'. ok (next s')

module _ (text : Text) where
  -- after a backslash: a hole, or an escape
  unfoldable escaped : (ℕ → Result ℕ) → Literal → Result (Step Literal (Token × ℕ))
  escaped scan s = do
    escape ← require (char_at text (s.index + 1)) token_free_error
    (if eqb escape b'('
        then (do
          body_end ← scan (s.index + 2)
          let hole : Interpolation = record { start = s.index + 2; end = body_end }
          ok (
              next
                (record { index = body_end + 1; parts = s.parts; holes = s.holes ++ hole ∷ [] })))
        else (do
          c ← require (lookup escape string_escapes) token_free_error
          ok (next (record { index = s.index + 2; parts = s.parts ++ c ∷ []; holes = s.holes }))))

  -- a round of the loop of _lex_string, which began at `start`
  unfoldable string_round : (ℕ → Result ℕ) → ℕ → Literal → Result (Step Literal (Token × ℕ))
  unfolding escaped
  string_round scan start s = do
    c ← require (char_at text s.index) token_free_error
    (if eqb c b'"'
        then ok (
            finished (
              record {
                kind = string_token;
                text = s.parts;
                position = start;
                interpolations = s.holes;
              },
              s.index + 1,
            ))
        else if eqb c 0x5C
        then escaped scan s
        else ok (next (record { index = s.index + 1; parts = s.parts ++ c ∷ []; holes = s.holes })))

  -- a round of the loop of _scan_interpolation
  unfoldable hole_round : (ℕ → Result (Token × ℕ)) → Hole → Result (Step Hole ℕ)
  hole_round lex_string s = do
    c ← require (char_at text s.index) token_free_error
    (if eqb c b'"'
        then (do
          skipped ← lex_string s.index
          ok (next (record { depth = s.depth; index = skipped.1 })))
        else if eqb c b'('
        then ok (next (record { depth = s.depth + 1; index = s.index + 1 }))
        else if eqb c b')'
        then (if eqb s.depth 1
            then ok (finished s.index)
            else ok (next (record { depth = s.depth - 1; index = s.index + 1 })))
        else ok (next (record { depth = s.depth; index = s.index + 1 })))

  -- levels left, start
  unfoldable mutual
    unfolding string_round hole_round

    pub lex_string : ℕ → ℕ → Result (Token × ℕ)
    lex_string zero start = raise token_free_error
    lex_string (suc levels) start =
        loop (suc (length text)) (string_round (scan_interpolation levels) start)
          (record { index = start + 1; parts = []; holes = [] })

    pub scan_interpolation : ℕ → ℕ → Result ℕ
    scan_interpolation zero start = raise token_free_error
    scan_interpolation (suc levels) start =
        loop (suc (length text)) (hole_round (lex_string levels))
          (record { depth = 1; index = start })

  -- the token at an index, whose characters up to the stop are given, and the index after it
  unfoldable pub lex_token : ℕ → ℕ → ℕ → Text → Result (Option Token × ℕ)
  unfolding number_length first_operator prefix_length
  lex_token levels index c cs =
      let name = prefix_length is_ident_char cs in
      let dotted = first_char cs in
      if eqb c b' '
      then ok (none, index + 1)
      else if eqb c b'"'
      then (do (token, after) ← lex_string levels index; ok (some token, after))
      else if eqb c b'$'
      then (if eqb name 0
          then raise token_free_error
          else ok (some (plain variable_token (take name cs) index), index + 1 + name))
      else if eqb c b'@'
      then ok (some (plain format_token (c ∷ take name cs) index), index + 1 + name)
      else if is_digit c
      then (let n = number_length (c ∷ cs) in
          ok (some (plain number_token (take n (c ∷ cs)) index), index + n))
      else if is_ident_start c
      then ok (some (plain ident_token (c ∷ take name cs) index), index + 1 + name)
      else if eqb c b'.' && is_ident_start dotted
      then ok (some (plain field_token (take name cs) index), index + 1 + name)
      else if eqb c b'.' && eqb dotted b'"'
      then (do
        (quoted, after) ← lex_string levels (index + 1)
        raise_if (not (is_empty quoted.interpolations)) token_free_error
        ok (some (plain field_token quoted.text index), after))
      else (do
        op ← require (first_operator operators (drop index text)) token_free_error
        ok (some (plain operator_token op index), index + length op))

  -- a round of the loop of _lex
  unfoldable pub lex_round : ℕ → ℕ → Lexing → Result (Step Lexing Lexing)
  unfolding emit lex_token add_token
  lex_round levels stop s = elim (take (stop - s.index) (drop s.index text)) [
    | [] ↦ do last ← emit s (plain end_token [] stop) s.index; ok (finished last)
    | c ∷ cs ↦ do (found, after) ← lex_token levels s.index c cs; add_token s found after
  ]

  -- _lex, with the levels left and the tokens spent before
  unfoldable pub lex : ℕ → ℕ → ℕ → ℕ → Result Lexing
  unfolding lex_round
  lex levels spent start stop =
      loop (suc (length text)) (lex_round levels stop)
        (record { index = start; tokens = []; spent = spent })
