-- ===== src/Authz/TokenFree/Taint.antt =====
-- authz/token_free.py: _TaintAnalysis, the information-flow rule over a parsed condition.
use tai_skeleton.Base.{
  Bool, false, ◌||◌, Option, none, some, List, [], Text, codes, ◌==◌, nat_eq, list_eq, lookup,
  insert, if◌then◌else◌, Result, ok, raise, token_free_error, ◌>>=◌, ◌>>◌, require,
}
use tai_skeleton.Authz.TokenFree.Syntax.{
  Node, root, constant, string, variable, projection, call, binary, negate, bind, try_only,
  try_catch, object, empty_array, array, Nodes, no_nodes, node, Suffix, index, Suffixes,
  no_suffixes, suffix, static_name,
}

-- ROOT is `context`: the value is the whole auth context.
pub data Taint : Type 0 where
  context safe : Taint

pub record Scope : Type 0 where
  pub subject : Taint
  pub variables : List (Text × Taint)

abbrev pub require_safe : Taint → Result (Unit {0})
require_safe context = raise token_free_error
require_safe safe = ok tt

-- SAFE if both are
abbrev pub either : Taint → Taint → Taint
either safe safe = safe
either _ _ = context

abbrev pub is_pipe : Text → Bool
is_pipe op = op == codes "|"

abbrev pub is_choice : Text → Bool
is_choice op = op == codes "," || op == codes "//"

module _ (owner_claim : Text) where
  -- len(remaining) == 1 and _static_name(remaining[0]) == OWNER_USER_ID_CLAIM
  abbrev pub is_owner : Option Text → Bool
  is_owner none = false
  is_owner (some name) = name == owner_claim

  unfoldable pub is_owner_only : Suffixes → Bool
  is_owner_only (suffix s no_suffixes) = is_owner (static_name s)
  is_owner_only _ = false

  unfoldable mutual
    pub taint : Node → Scope → Result Taint
    taint (root p) scope = ok scope.subject
    taint (constant p) scope = ok safe
    taint (string p value parts) scope = all_safe parts scope >> ok safe
    taint (variable p name) scope = require (lookup name scope.variables) token_free_error
    taint (projection p source suffixes) scope = do t ← taint source scope; project t suffixes scope
    taint (call p name arguments) scope =
        require_safe scope.subject
        >> (all_safe arguments (record { subject = safe; variables = scope.variables }) >> ok safe)
    taint (binary p op left right) scope = do
      l ← taint left scope
      let piped : Scope = record { subject = l; variables = scope.variables }
      if is_pipe op then taint right piped else (do
        r ← taint right scope
        if is_choice op then ok (either l r) else require_safe l >> (require_safe r >> ok safe))
    taint (negate p operand) scope = do t ← taint operand scope; require_safe t; ok safe
    taint (bind p source name body) scope = do
      t ← taint source scope
      taint body (record { subject = scope.subject; variables = insert name t scope.variables })
    taint (try_only p body) scope = taint body scope
    taint (try_catch p body handler) scope = do
      b ← taint body scope
      h ← taint handler (record { subject = context; variables = scope.variables })
      ok (either b h)
    taint (object p values) scope = all_safe values scope >> ok safe
    taint (empty_array p) scope = ok safe
    taint (array p element) scope = do t ← taint element scope; require_safe t; ok safe

    -- each value is safe
    pub all_safe : Nodes → Scope → Result (Unit {0})
    all_safe no_nodes scope = ok tt
    all_safe (node n ns) scope = do t ← taint n scope; require_safe t; all_safe ns scope

    -- the loop of _projection
    pub project : Taint → Suffixes → Scope → Result Taint
    project t no_suffixes scope = ok t
    project safe (suffix s rest) scope = key_safe s scope >> project safe rest scope
    project context (suffix s rest) scope = do
      name ← require (static_name s) token_free_error
      (if name == codes "identity"
          then (if is_owner_only rest then ok safe else raise token_free_error)
          else project safe rest scope)

    -- a computed index is safe
    pub key_safe : Suffix → Scope → Result (Unit {0})
    key_safe (index p key) scope = taint key scope >>= λ t. require_safe t
    key_safe _ scope = ok tt

  unfoldable pub assert_safe : Node → Result (Unit {0})
  assert_safe n = do t ← taint n (record { subject = context; variables = [] }); require_safe t
