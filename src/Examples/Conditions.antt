-- ===== src/Examples/Conditions.antt =====
-- Conditions that the token-free rule passes or refuses.
use tai_skeleton.Base.{
  ◌≡◌, refl, Text, codes, none, any, loop, take, starts_with, elem, list_beq, lookup, Ensures,
  Result, ok, raise, token_free_error,
}
use tai_skeleton.Authz.TokenFree.Syntax.{Node, static_name}
use tai_skeleton.Authz.TokenFree.Lexer.{lex_string}
use tai_skeleton.Authz.TokenFree.Taint.{taint, is_owner_only}
use tai_skeleton.Authz.TokenFree.Parser.{count_nodes, add_node, add_suffix}
use tai_skeleton.Authz.TokenFree.Parser.Progress.{IsAllowed}
use tai_skeleton.Authz.TokenFree.Grammar.Progress.{program-Ensures}
use tai_skeleton.Authz.TokenFree.Gate.{token_free-same_outputs}
use tai_skeleton.Examples.Interpreter.Callers.{
  small_jq, caller_in_ops, caller_in_sales, same_but_group,
}
use tai_skeleton.Authz.TokenFree.Grammar.{assert_token_free_evaluable, program}

abbrev any_text : Text → Result (Unit {0})
any_text t = ok tt

abbrev owner_and_method : Text
owner_and_method =
    codes
      ".identity.owner_user_id == \"ann\" and (.method | IN(\"GET\"; \"POST\")) or .a[\"b\"]?.c // 3.5e2"

owner_and_method_passes :
    assert_token_free_evaluable any_text (codes "owner_user_id") owner_and_method ≡ ok tt
unfolding assert_token_free_evaluable any loop take starts_with lex_string elem list_beq lookup
    count_nodes add_node taint add_suffix static_name is_owner_only
owner_and_method_passes = refl

-- A claim other than the owner's, by name or through a variable and a serialization.
group_refused :
    assert_token_free_evaluable any_text (codes "owner_user_id") (codes ".identity.groups != 3")
    ≡ raise token_free_error
unfolding assert_token_free_evaluable any loop take starts_with elem list_beq taint add_suffix
    static_name is_owner_only
group_refused = refl

token_free-same_outputs_example :
    (n : Node) × (program owner_and_method ≡ ok n)
    × ((small_jq owner_and_method).eval n (λ x. none) caller_in_ops
        ≡ (small_jq owner_and_method).eval n (λ x. none) caller_in_sales)
token_free-same_outputs_example =
    token_free-same_outputs any_text (codes "owner_user_id") owner_and_method
      (small_jq owner_and_method) caller_in_ops caller_in_sales (λ x. none)
      (same_but_group owner_and_method) owner_and_method_passes

program-Ensures_example : Ensures IsAllowed (program owner_and_method)
program-Ensures_example = program-Ensures owner_and_method
