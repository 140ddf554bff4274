-- ===== src/Authz/TokenFree/Gate.antt =====
-- The whole gate, for a jq that does what its manual says.
use tai_skeleton.Base.{Text, ◌≡◌, Result, ok, >>=-eq-ok}
use tai_skeleton.Authz.TokenFree.Syntax.{Node}
use tai_skeleton.Authz.TokenFree.Characters.{assert_source_shape}
use tai_skeleton.Authz.TokenFree.Grammar.{compile_errors, program, assert_token_free_evaluable}
use tai_skeleton.Authz.TokenFree.Jq.{Env, Jq}
use tai_skeleton.Authz.TokenFree.Reads.{SameButIdentity}
use tai_skeleton.Authz.TokenFree.Noninterference.{assert_safe-same_outputs}

-- A condition that passes the gate parses, and jq gives one stream of outputs for its program under two
-- auth contexts that differ only in identity claims other than the owner's.
pub token_free-same_outputs :
    (compiles : Text → Result (Unit {0})) (owner_claim text : Text) (jq : Jq)
    (first second : jq.Value) (env : Env jq.Value) {u : Unit {0}}
    → SameButIdentity jq owner_claim first second
    → assert_token_free_evaluable compiles owner_claim text ≡ ok u
    → (n : Node) × (program text ≡ ok n) × (jq.eval n env first ≡ jq.eval n env second)
unfolding assert_token_free_evaluable
token_free-same_outputs compiles owner_claim text jq first second env same h =
    let (_, _, h1) = >>=-eq-ok (compile_errors (compiles text)) _ h in
    let (_, _, h2) = >>=-eq-ok (assert_source_shape text) _ h1 in
    let (n, e, h3) = >>=-eq-ok (program text) _ h2 in
    (n, e, assert_safe-same_outputs jq owner_claim first second same n env h3)
