-- ===== src/Examples/Interpreter/Laws.antt =====
-- What the small interpreter does with each construct.
use tai_skeleton.Base.{
  ℕ, false, some, [], ◌∷◌, Text, codes, ◌≡◌, refl, ap, nat_eq, list_eq, list_beq,
}
use tai_skeleton.Authz.TokenFree.Syntax.{
  Node, root, constant, string, variable, projection, call, binary, negate, bind, try_only,
  try_catch, object, empty_array, array, Nodes, no_nodes, node, Suffix, field, each, index,
  optional, Suffixes, no_suffixes, suffix,
}
use tai_skeleton.Authz.TokenFree.Taint.{is_pipe, is_choice}
use tai_skeleton.Authz.TokenFree.Jq.{
  Stream, done, raised, output, one, append, feed, catching, truthy_only, or_else, Env, bound,
}
use tai_skeleton.Examples.Interpreter.{
  Json, nothing, word, truthy, at, operated, indexed, literal_at, eval, eval_all, filters,
}

append-done : {V : Type 0} (s : Stream V) → append s done ≡ s
unfolding append
append-done done = refl
append-done (raised e) = refl
append-done (output x s) = ap (output x) (append-done s)

pub indexed-one : (s : Stream Json) (k : Json) → indexed s (one k) ≡ feed s (λ v. at v k)
unfolding feed
indexed-one s k = append-done (feed s (λ v. at v k))

module _ (source : Text) where
  pub eval-pipe_lem :
      (p : ℕ) (l r : Node) (env : Env Json) (v : Json)
      → eval source (binary p (codes "|") l r) env v
        ≡ feed (eval source l env v) (λ w. eval source r env w)
  unfolding eval list_beq
  eval-pipe_lem p l r env v = refl

  pub eval-comma_lem :
      (p : ℕ) (l r : Node) (env : Env Json) (v : Json)
      → eval source (binary p (codes ",") l r) env v
        ≡ append (eval source l env v) (eval source r env v)
  unfolding eval list_beq
  eval-comma_lem p l r env v = refl

  pub eval-alternative_lem :
      (p : ℕ) (l r : Node) (env : Env Json) (v : Json)
      → eval source (binary p (codes "//") l r) env v
        ≡ or_else (truthy_only truthy (eval source l env v)) (eval source r env v)
  unfolding eval list_beq
  eval-alternative_lem p l r env v = refl

  pub eval-binary_lem :
      (p : ℕ) (op : Text) (l r : Node) (env : Env Json) (v : Json)
      → is_pipe op ≡ false
      → is_choice op ≡ false
      → eval source (binary p op l r) env v
        ≡ operated op (eval source l env v) (eval source r env v)
  unfolding eval
  eval-binary_lem p op l r env v h k = rw (h, k, eval) refl

  pub eval-string_lem :
      (p : ℕ) (s : Text) (n : Node) (ns : Nodes) (env : Env Json) (v : Json)
      → eval source (string p s (node n ns)) env v ≡ one (word s)
  unfolding eval
  eval-string_lem p s n ns env v = refl

  pub eval-variable_lem :
      (p : ℕ) (x : Text) (env : Env Json) (v w : Json)
      → env x ≡ some w
      → eval source (variable p x) env v ≡ one w
  unfolding eval
  eval-variable_lem p x env v w h = rw h refl

  pub eval-root_lem : (p : ℕ) (env : Env Json) (v : Json) → eval source (root p) env v ≡ one v
  unfolding eval
  eval-root_lem p env v = refl

  pub eval-constant_lem :
      (p : ℕ) (env : Env Json) (v : Json)
      → eval source (constant p) env v ≡ one (literal_at source p)
  unfolding eval
  eval-constant_lem p env v = refl

  pub eval-text_lem :
      (p : ℕ) (s : Text) (env : Env Json) (v : Json)
      → eval source (string p s no_nodes) env v ≡ one (word s)
  unfolding eval
  eval-text_lem p s env v = refl

  pub eval-no_suffixes_lem :
      (p : ℕ) (n : Node) (env : Env Json) (v : Json)
      → eval source (projection p n no_suffixes) env v ≡ eval source n env v
  unfolding eval
  eval-no_suffixes_lem p n env v = refl

  pub eval-suffixes_lem :
      (p : ℕ) (n : Node) (s : Suffix) (rest : Suffixes) (env : Env Json) (v : Json)
      → eval source (projection p n (suffix s rest)) env v
        ≡ eval source (projection p (projection p n (suffix s no_suffixes)) rest) env v
  unfolding eval
  eval-suffixes_lem p n s rest env v = refl

  pub eval-field_lem :
      (p q : ℕ) (n : Node) (name : Text) (env : Env Json) (v : Json)
      → eval source (projection p n (suffix (field q name) no_suffixes)) env v
        ≡ indexed (eval source n env v) (one (word name))
  unfolding eval
  eval-field_lem p q n name env v = refl

  pub eval-index_lem :
      (p q : ℕ) (n key : Node) (env : Env Json) (v : Json)
      → eval source (projection p n (suffix (index q key) no_suffixes)) env v
        ≡ indexed (eval source n env v) (eval source key env v)
  unfolding eval
  eval-index_lem p q n key env v = refl

  pub eval-each_lem :
      (p q : ℕ) (n : Node) (env : Env Json) (v : Json)
      → eval source (projection p n (suffix (each q) no_suffixes)) env v
        ≡ feed (eval source n env v) (λ w. raised nothing)
  unfolding eval
  eval-each_lem p q n env v = refl

  pub eval-optional_lem :
      (p q : ℕ) (n : Node) (env : Env Json) (v : Json)
      → eval source (projection p n (suffix (optional q) no_suffixes)) env v
        ≡ catching (eval source n env v) (λ e. done)
  unfolding eval
  eval-optional_lem p q n env v = refl

  pub eval-call_lem :
      (p : ℕ) (name : Text) (ns : Nodes) (env : Env Json) (v : Json)
      → eval source (call p name ns) env v ≡ one v
  unfolding eval
  eval-call_lem p name ns env v = refl

  pub eval-negate_lem :
      (p : ℕ) (n : Node) (env : Env Json) (v : Json)
      → eval source (negate p n) env v ≡ eval source n env v
  unfolding eval
  eval-negate_lem p n env v = refl

  pub eval-bind_lem :
      (p : ℕ) (n : Node) (x : Text) (body : Node) (env : Env Json) (v : Json)
      → eval source (bind p n x body) env v
        ≡ feed (eval source n env v) (λ w. eval source body (bound x w env) v)
  unfolding eval
  eval-bind_lem p n x body env v = refl

  pub eval-try_only_lem :
      (p : ℕ) (n : Node) (env : Env Json) (v : Json)
      → eval source (try_only p n) env v ≡ catching (eval source n env v) (λ e. done)
  unfolding eval
  eval-try_only_lem p n env v = refl

  pub eval-try_catch_lem :
      (p : ℕ) (n h : Node) (env : Env Json) (v : Json)
      → eval source (try_catch p n h) env v
        ≡ catching (eval source n env v) (λ e. eval source h env e)
  unfolding eval
  eval-try_catch_lem p n h env v = refl

  pub eval-object_lem :
      (p : ℕ) (ns : Nodes) (env : Env Json) (v : Json)
      → eval source (object p ns) env v ≡ one nothing
  unfolding eval
  eval-object_lem p ns env v = refl

  pub eval-empty_array_lem :
      (p : ℕ) (env : Env Json) (v : Json) → eval source (empty_array p) env v ≡ one nothing
  unfolding eval
  eval-empty_array_lem p env v = refl

  pub eval-array_lem :
      (p : ℕ) (n : Node) (env : Env Json) (v : Json) → eval source (array p n) env v ≡ one nothing
  unfolding eval
  eval-array_lem p n env v = refl

  pub eval_all-none_lem : (env : Env Json) (v : Json) → eval_all source no_nodes env v ≡ []
  unfolding eval
  eval_all-none_lem env v = refl

  pub eval_all-node_lem :
      (n : Node) (ns : Nodes) (env : Env Json) (v : Json)
      → eval_all source (node n ns) env v ≡ eval source n env v ∷ eval_all source ns env v
  unfolding eval
  eval_all-node_lem n ns env v = refl

  pub filters-none_lem : (env : Env Json) → filters source no_nodes env ≡ []
  unfolding eval
  filters-none_lem env = refl

  pub filters-node_lem :
      (n : Node) (ns : Nodes) (env : Env Json)
      → filters source (node n ns) env ≡ (λ v. eval source n env v) ∷ filters source ns env
  unfolding eval
  filters-node_lem n ns env = refl
