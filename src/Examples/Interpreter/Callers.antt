-- ===== src/Examples/Interpreter/Callers.antt =====
-- The small interpreter as a `Jq`, and two callers that differ in a group.
use tai_skeleton.Base.{
  Text, codes, ◌≡◌, ◌≢◌, refl, ◌==◌, ==_iff, nat_eq, list_eq, list_beq, Bool-cases, inl, inr,
}
use tai_skeleton.Authz.TokenFree.Jq.{done, raised, one, append, feed, catching, Jq}
use tai_skeleton.Authz.TokenFree.Reads.{SameButIdentity}
use tai_skeleton.Examples.Interpreter.{
  Json, nothing, word, auth, truthy, at, operated, indexed, literal_at, eval, eval_all, filters,
}
use tai_skeleton.Examples.Interpreter.Laws.{
  indexed-one, eval-pipe_lem, eval-comma_lem, eval-alternative_lem, eval-binary_lem,
  eval-string_lem, eval-variable_lem, eval-root_lem, eval-constant_lem, eval-text_lem,
  eval-no_suffixes_lem, eval-suffixes_lem, eval-field_lem, eval-index_lem, eval-each_lem,
  eval-optional_lem, eval-call_lem, eval-negate_lem, eval-bind_lem, eval-try_only_lem,
  eval-try_catch_lem, eval-object_lem, eval-empty_array_lem, eval-array_lem, eval_all-none_lem,
  eval_all-node_lem, filters-none_lem, filters-node_lem,
}

abbrev pub small_jq : Text → Jq
small_jq source = record {
  Value = Json;
  text = word;
  truthy = truthy;
  at = at;
  elements = λ v. raised nothing;
  literal = λ p. one (literal_at source p);
  interpolated = λ p s parts. one (word s);
  indexed = indexed;
  suppressed = λ s. catching s (λ e. done);
  negated = λ s. s;
  operated = operated;
  builtin = λ name fs v. one v;
  constructed = λ p parts. one nothing;
  collected = λ p s. one nothing;
  eval = eval source;
  eval_all = eval_all source;
  filters = filters source;
  indexed_one = indexed-one;
  eval_root = eval-root_lem source;
  eval_constant = eval-constant_lem source;
  eval_text = eval-text_lem source;
  eval_string = eval-string_lem source;
  eval_variable = eval-variable_lem source;
  eval_no_suffixes = eval-no_suffixes_lem source;
  eval_suffixes = eval-suffixes_lem source;
  eval_field = eval-field_lem source;
  eval_index = eval-index_lem source;
  eval_each = eval-each_lem source;
  eval_optional = eval-optional_lem source;
  eval_call = eval-call_lem source;
  eval_pipe = eval-pipe_lem source;
  eval_comma = eval-comma_lem source;
  eval_alternative = eval-alternative_lem source;
  eval_binary = eval-binary_lem source;
  eval_negate = eval-negate_lem source;
  eval_bind = eval-bind_lem source;
  eval_try_only = eval-try_only_lem source;
  eval_try_catch = eval-try_catch_lem source;
  eval_object = eval-object_lem source;
  eval_empty_array = eval-empty_array_lem source;
  eval_array = eval-array_lem source;
  eval_all_none = eval_all-none_lem source;
  eval_all_node = eval_all-node_lem source;
  filters_none = filters-none_lem source;
  filters_node = filters-node_lem source;
}

abbrev pub caller_in_ops : Json
caller_in_ops = auth (codes "GET") (codes "ann") (codes "ops")

abbrev pub caller_in_sales : Json
caller_in_sales = auth (codes "GET") (codes "ann") (codes "sales")

at-fields :
    (m o g h name : Text)
    → name ≢ codes "identity"
    → at (auth m o g) (word name) ≡ at (auth m o h) (word name)
unfolding at
at-fields m o g h name d = elim (Bool-cases (name == codes "identity")) [
  | inl e ↦ absurd (d ((==_iff name (codes "identity")).0 e))
  | inr e ↦ rw e refl
]

at-owner :
    (m o g h : Text)
    → feed (at (auth m o g) (word (codes "identity"))) (λ v. at v (word (codes "owner_user_id")))
      ≡ feed (at (auth m o h) (word (codes "identity"))) (λ v. at v (word (codes "owner_user_id")))
unfolding at feed append list_beq
at-owner m o g h = refl

pub auth-SameButIdentity :
    (source m o g h : Text)
    → SameButIdentity (small_jq source) (codes "owner_user_id") (auth m o g) (auth m o h)
auth-SameButIdentity source m o g h = record {
  fields = at-fields m o g h;
  owner = at-owner m o g h;
  first_truthy = refl;
  second_truthy = refl;
}

pub same_but_group :
    (source : Text)
    → SameButIdentity (small_jq source) (codes "owner_user_id") caller_in_ops caller_in_sales
same_but_group source =
    auth-SameButIdentity source (codes "GET") (codes "ann") (codes "ops") (codes "sales")
