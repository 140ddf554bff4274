-- ===== src/Examples/Interpreter.antt =====
-- A small interpreter of the condition of a text, over an auth context with a method, an owner and a
-- group. A literal is read where it stands in the text.
pub mod Laws
pub mod Callers
use tai_skeleton.Base.{
  not, ◌&&◌, starts_with, take, drop, ℕ, Bool, true, false, ◌||◌, Option, none, some, List, [], ◌∷◌,
  Text, codes, ◌≡◌, ◌≢◌, refl, ap, sym, ◌∙◌, ◌==◌, ==_iff, nat_eq, list_eq, list_beq, if◌then◌else◌,
  Bool-cases, inl, inr, arith,
}
use tai_skeleton.Authz.TokenFree.Syntax.{
  Node, root, constant, string, variable, projection, call, binary, negate, bind, try_only,
  try_catch, object, empty_array, array, Nodes, no_nodes, node, Suffix, field, each, index,
  optional, Suffixes, no_suffixes, suffix,
}
use tai_skeleton.Authz.TokenFree.Characters.{number_length}
use tai_skeleton.Authz.TokenFree.Taint.{is_pipe, is_choice}
use tai_skeleton.Authz.TokenFree.Jq.{
  Stream, done, raised, output, one, append, feed, catching, truthy_only, or_else, Env, bound, Jq,
}
use tai_skeleton.Authz.TokenFree.Reads.{SameButIdentity}

pub data Json : Type 0 where
  nothing : Json
  flag : Bool → Json
  word : Text → Json
  numeral : Text → Json
  claims : Text → Text → Json
  auth : Text → Text → Text → Json

abbrev pub truthy : Json → Bool
truthy nothing = false
truthy (flag b) = b
truthy _ = true

unfoldable pub at : Json → Json → Stream Json
at (auth method owner group) (word k) =
    if k == codes "identity"
    then one (claims owner group)
    else if k == codes "method"
    then one (word method)
    else one nothing
at (claims owner group) (word k) =
    if k == codes "owner_user_id"
    then one (word owner)
    else if k == codes "groups"
    then one (word group)
    else one nothing
at v k = raised nothing

abbrev pub equal : Json → Json → Bool
equal nothing nothing = true
equal (flag true) (flag b) = b
equal (flag false) (flag b) = not b
equal (word s) (word t) = s == t
equal (numeral s) (numeral t) = s == t
equal _ _ = false

-- of the operators, those of truth and of equality
abbrev pub answer : Text → Json → Json → Bool
answer op a b =
    if op == codes "and"
    then truthy a && truthy b
    else if op == codes "or"
    then truthy a || truthy b
    else if op == codes "!="
    then not (equal a b)
    else equal a b

abbrev pub operated : Text → Stream Json → Stream Json → Stream Json
operated op l r = feed l (λ a. feed r (λ b. one (flag (answer op a b))))

abbrev pub indexed : Stream Json → Stream Json → Stream Json
indexed s ks = feed ks (λ k. feed s (λ v. at v k))

abbrev variable_value : Option Json → Stream Json
variable_value none = raised nothing
variable_value (some v) = one v

-- the literal at a position of a text
unfoldable pub literal_at : Text → ℕ → Json
unfolding starts_with take drop number_length
literal_at text p =
    let rest = drop p text in
    if starts_with rest (codes "true")
    then flag true
    else if starts_with rest (codes "false")
    then flag false
    else if starts_with rest (codes "null")
    then nothing
    else numeral (take (number_length rest) rest)

module _ (source : Text) where
  unfoldable mutual
    unfolding feed append catching truthy_only bound at literal_at

    pub eval : Node → Env Json → Json → Stream Json
    eval (root p) env v = one v
    eval (constant p) env v = one (literal_at source p)
    eval (string p s no_nodes) env v = one (word s)
    eval (string p s (node n ns)) env v = one (word s)
    eval (variable p x) env v = variable_value (env x)
    eval (projection p n ss) env v = suffixed ss (eval n env v) env v
    eval (call p name ns) env v = one v
    eval (binary p op l r) env v =
        let left = eval l env v in
        let right = λ (w : Json). eval r env w in
        if is_pipe op
        then feed left right
        else if is_choice op
        then (if op == codes ","
            then append left (right v)
            else or_else (truthy_only truthy left) (right v))
        else operated op left (right v)
    eval (negate p n) env v = eval n env v
    eval (bind p n x body) env v = feed (eval n env v) (λ w. eval body (bound x w env) v)
    eval (try_only p n) env v = catching (eval n env v) (λ e. done)
    eval (try_catch p n h) env v = catching (eval n env v) (λ e. eval h env e)
    eval (object p ns) env v = one nothing
    eval (empty_array p) env v = one nothing
    eval (array p n) env v = one nothing

    pub eval_all : Nodes → Env Json → Json → List (Stream Json)
    eval_all no_nodes env v = []
    eval_all (node n ns) env v = eval n env v ∷ eval_all ns env v

    pub filters : Nodes → Env Json → List (Json → Stream Json)
    filters no_nodes env = []
    filters (node n ns) env = (λ v. eval n env v) ∷ filters ns env

    pub suffixed : Suffixes → Stream Json → Env Json → Json → Stream Json
    suffixed no_suffixes s env v = s
    suffixed (suffix x rest) s env v = suffixed rest (one_suffix x s env v) env v

    pub one_suffix : Suffix → Stream Json → Env Json → Json → Stream Json
    one_suffix (field p name) s env v = indexed s (one (word name))
    one_suffix (each p) s env v = feed s (λ w. raised nothing)
    one_suffix (index p key) s env v = indexed s (eval key env v)
    one_suffix (optional p) s env v = catching s (λ e. done)
