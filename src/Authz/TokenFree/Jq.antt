-- ===== src/Authz/TokenFree/Jq.antt =====
-- What jq does with the constructs of a condition, as its manual says: an expression maps an input to
-- a stream of outputs that may end in an error. The interpreter is not part of the repository; `Jq` states
-- what the token-free rule relies on, and leaves open what a literal, an operator or a builtin does
-- with the streams that it is given.
use tai_skeleton.Base.{
  ℕ, Bool, false, Option, some, List, [], ◌∷◌, Text, codes, ◌==◌, nat_eq, list_eq, ◌≡◌,
  if◌then◌else◌,
}
use tai_skeleton.Authz.TokenFree.Syntax.{
  Node, root, constant, string, variable, projection, call, binary, negate, bind, try_only,
  try_catch, object, empty_array, array, Nodes, no_nodes, node, Suffix, field, each, index,
  optional, Suffixes, no_suffixes, suffix,
}
use tai_skeleton.Authz.TokenFree.Taint.{is_pipe, is_choice}

pub data Stream (V : Type 0) : Type 0 where
  done : Stream V
  raised : V → Stream V
  output : V → Stream V → Stream V

module _ {V : Type 0} where
  abbrev pub one : V → Stream V
  one x = output x done

  -- the outputs of the first, then of the second
  unfoldable pub append : Stream V → Stream V → Stream V
  append done t = t
  append (raised e) t = raised e
  append (output x s) t = output x (append s t)

  -- the outputs of `f` at each output
  unfoldable pub feed : Stream V → (V → Stream V) → Stream V
  feed done f = done
  feed (raised e) f = raised e
  feed (output x s) f = append (f x) (feed s f)

  -- an error goes to the handler
  unfoldable pub catching : Stream V → (V → Stream V) → Stream V
  catching done h = done
  catching (raised e) h = h e
  catching (output x s) h = output x (catching s h)

  -- the outputs that are neither false nor null, errors suppressed
  unfoldable pub truthy_only : (V → Bool) → Stream V → Stream V
  truthy_only truthy done = done
  truthy_only truthy (raised e) = done
  truthy_only truthy (output x s) =
      let rest = truthy_only truthy s in if truthy x then output x rest else rest

  -- the first, or the second if the first has no output
  abbrev pub or_else : Stream V → Stream V → Stream V
  or_else done t = t
  or_else (raised e) t = raised e
  or_else (output x s) t = output x s

abbrev pub Env : Type 0 → Type 0
Env V = Text → Option V

unfoldable pub bound : {V : Type 0} → Text → V → Env V → Env V
bound x v env y = if x == y then some v else env y

pub record Jq : Type 1 where
  pub Value : Type 0
  pub text : Text → Value
  pub truthy : Value → Bool
  -- .[k], and .[]
  pub at : Value → Value → Stream Value
  pub elements : Value → Stream Value
  -- what becomes of the streams of the parts
  pub literal : ℕ → Stream Value
  pub interpolated : ℕ → Text → List (Stream Value) → Stream Value
  pub indexed : Stream Value → Stream Value → Stream Value
  pub suppressed : Stream Value → Stream Value
  pub negated : Stream Value → Stream Value
  pub operated : Text → Stream Value → Stream Value → Stream Value
  pub builtin : Text → List (Value → Stream Value) → Value → Stream Value
  pub constructed : ℕ → List (Stream Value) → Stream Value
  pub collected : ℕ → Stream Value → Stream Value
  pub eval : Node → Env Value → Value → Stream Value
  pub eval_all : Nodes → Env Value → Value → List (Stream Value)
  pub filters : Nodes → Env Value → List (Value → Stream Value)
  pub indexed_one : (s : Stream Value) (k : Value) → indexed s (one k) ≡ feed s (λ v. at v k)
  pub eval_root : (p : ℕ) (env : Env Value) (v : Value) → eval (root p) env v ≡ one v
  pub eval_constant : (p : ℕ) (env : Env Value) (v : Value) → eval (constant p) env v ≡ literal p
  pub eval_text :
      (p : ℕ) (s : Text) (env : Env Value) (v : Value)
      → eval (string p s no_nodes) env v ≡ one (text s)
  pub eval_string :
      (p : ℕ) (s : Text) (n : Node) (ns : Nodes) (env : Env Value) (v : Value)
      → eval (string p s (node n ns)) env v ≡ interpolated p s (eval_all (node n ns) env v)
  pub eval_variable :
      (p : ℕ) (x : Text) (env : Env Value) (v w : Value)
      → env x ≡ some w
      → eval (variable p x) env v ≡ one w
  pub eval_no_suffixes :
      (p : ℕ) (n : Node) (env : Env Value) (v : Value)
      → eval (projection p n no_suffixes) env v ≡ eval n env v
  pub eval_suffixes :
      (p : ℕ) (n : Node) (s : Suffix) (rest : Suffixes) (env : Env Value) (v : Value)
      → eval (projection p n (suffix s rest)) env v
        ≡ eval (projection p (projection p n (suffix s no_suffixes)) rest) env v
  pub eval_field :
      (p q : ℕ) (n : Node) (name : Text) (env : Env Value) (v : Value)
      → eval (projection p n (suffix (field q name) no_suffixes)) env v
        ≡ indexed (eval n env v) (one (text name))
  pub eval_index :
      (p q : ℕ) (n key : Node) (env : Env Value) (v : Value)
      → eval (projection p n (suffix (index q key) no_suffixes)) env v
        ≡ indexed (eval n env v) (eval key env v)
  pub eval_each :
      (p q : ℕ) (n : Node) (env : Env Value) (v : Value)
      → eval (projection p n (suffix (each q) no_suffixes)) env v ≡ feed (eval n env v) elements
  pub eval_optional :
      (p q : ℕ) (n : Node) (env : Env Value) (v : Value)
      → eval (projection p n (suffix (optional q) no_suffixes)) env v ≡ suppressed (eval n env v)
  pub eval_call :
      (p : ℕ) (name : Text) (ns : Nodes) (env : Env Value) (v : Value)
      → eval (call p name ns) env v ≡ builtin name (filters ns env) v
  pub eval_pipe :
      (p : ℕ) (l r : Node) (env : Env Value) (v : Value)
      → eval (binary p (codes "|") l r) env v ≡ feed (eval l env v) (λ w. eval r env w)
  pub eval_comma :
      (p : ℕ) (l r : Node) (env : Env Value) (v : Value)
      → eval (binary p (codes ",") l r) env v ≡ append (eval l env v) (eval r env v)
  pub eval_alternative :
      (p : ℕ) (l r : Node) (env : Env Value) (v : Value)
      → eval (binary p (codes "//") l r) env v
        ≡ or_else (truthy_only truthy (eval l env v)) (eval r env v)
  pub eval_binary :
      (p : ℕ) (op : Text) (l r : Node) (env : Env Value) (v : Value)
      → is_pipe op ≡ false
      → is_choice op ≡ false
      → eval (binary p op l r) env v ≡ operated op (eval l env v) (eval r env v)
  pub eval_negate :
      (p : ℕ) (n : Node) (env : Env Value) (v : Value)
      → eval (negate p n) env v ≡ negated (eval n env v)
  pub eval_bind :
      (p : ℕ) (n : Node) (x : Text) (body : Node) (env : Env Value) (v : Value)
      → eval (bind p n x body) env v ≡ feed (eval n env v) (λ w. eval body (bound x w env) v)
  pub eval_try_only :
      (p : ℕ) (n : Node) (env : Env Value) (v : Value)
      → eval (try_only p n) env v ≡ catching (eval n env v) (λ e. done)
  pub eval_try_catch :
      (p : ℕ) (n h : Node) (env : Env Value) (v : Value)
      → eval (try_catch p n h) env v ≡ catching (eval n env v) (λ e. eval h env e)
  pub eval_object :
      (p : ℕ) (ns : Nodes) (env : Env Value) (v : Value)
      → eval (object p ns) env v ≡ constructed p (eval_all ns env v)
  pub eval_empty_array :
      (p : ℕ) (env : Env Value) (v : Value) → eval (empty_array p) env v ≡ collected p done
  pub eval_array :
      (p : ℕ) (n : Node) (env : Env Value) (v : Value)
      → eval (array p n) env v ≡ collected p (eval n env v)
  pub eval_all_none : (env : Env Value) (v : Value) → eval_all no_nodes env v ≡ []
  pub eval_all_node :
      (n : Node) (ns : Nodes) (env : Env Value) (v : Value)
      → eval_all (node n ns) env v ≡ eval n env v ∷ eval_all ns env v
  pub filters_none : (env : Env Value) → filters no_nodes env ≡ []
  pub filters_node :
      (n : Node) (ns : Nodes) (env : Env Value)
      → filters (node n ns) env ≡ (λ v. eval n env v) ∷ filters ns env
