-- ===== src/Authz/Check/Conditions.antt =====
-- The conditions of a fire, for a caller that may present other identity claims.
pub mod Dispatch
use tai_skeleton.Base.{
  ℕ, Bool, true, false, ◌&&◌, not, ◌≡◌, ◌⊎◌, inl, inr, refl, sym, ap, ◌∙◌, Option, none, some, List,
  String, Text, codes, arith, ◌==◌, string_eq, if◌then◌else◌, Bool-cases, Result, ok, raise,
  permission_denied, >>=-eq-ok, raise_if, require, is_empty, no_identity, no_resource,
  malformed_path_error, disabled, no_policy,
}
use tai_skeleton.AccessControl.Policy.{
  Value, Dict, get, AccessPolicy, JqContext, Services, str, is_disabled, policy_is_empty,
  get_policy_at, current_policy_version, has_condition, enforce, render_policy,
}
use tai_skeleton.AccessControl.PathCanon.{canonicalize_path}
use tai_skeleton.AccessControl.Verifier.{Site, is_always_public_prefix, resolve_resource_ids}
use tai_skeleton.AccessControl.Backend.{jq_context}
use tai_skeleton.Authz.TokenFree.Syntax.{Node}
use tai_skeleton.Authz.TokenFree.Grammar.{program, assert_token_free_evaluable}
use tai_skeleton.Authz.TokenFree.Gate.{token_free-same_outputs}
use tai_skeleton.Authz.TokenFree.Jq.{Stream, Jq}
use tai_skeleton.Authz.TokenFree.Reads.{SameButIdentity}
use tai_skeleton.App.RouteRegistry.{RouteMetadata}
use tai_skeleton.Authz.Path.{OperationMetadata, Arguments, synthesize_path, own_route}
use tai_skeleton.Authz.Check.{
  CallerIdentity, claims_of, or_denied, assert_bound_key, read_owner, scopes_for, scope_test,
  method_of, authorize_caller, authorize_pinned_route, check_external, check, fence, owner_fence,
  fence_errors, fences, render_errors, token_free_errors,
}

-- The engine runs every condition as jq does, within its time budget: the program of its text, on the
-- value of the context, whose fields are read under their names. A node holds the position of a literal
-- and not its value, so what a node means is given for each text.
pub record RunsJq (svc : Services) : Type 1 where
  pub jq : String → Jq
  pub value_of : (condition : String) → JqContext → (jq condition).Value
  pub result_of : (condition : String) → Stream (jq condition).Value → Result Value
  pub runs :
      (condition : String) (n : Node) (c : JqContext)
      → program (codes condition) ≡ ok n
      → svc.run_jq condition c
        ≡ result_of condition ((jq condition).eval n (λ x. none) (value_of condition c))
  pub reads :
      (condition : String) (c : JqContext) (claims : Dict)
      → get c.identity svc.owner_claim ≡ get claims svc.owner_claim
      → SameButIdentity
          (jq condition)
          (codes svc.owner_claim)
          (value_of condition c)
          (value_of condition (record c { identity = claims }))

module _ (svc : Services) (site : Site) (engine : RunsJq svc) where
  run_jq-other_claims :
      (condition : String) (c : JqContext) (claims : Dict)
      → get c.identity svc.owner_claim ≡ get claims svc.owner_claim
      → assert_token_free_evaluable svc.compile_jq (codes svc.owner_claim) (codes condition) ≡ ok tt
      → svc.run_jq condition c ≡ svc.run_jq condition (record c { identity = claims })
  run_jq-other_claims condition c claims same passes =
      let (n, e, equal) =
        token_free-same_outputs svc.compile_jq (codes svc.owner_claim) (codes condition)
          (engine.jq condition) (engine.value_of condition c)
          (engine.value_of condition (record c { identity = claims })) (λ x. none)
          (engine.reads condition c claims same) passes in
      engine.runs condition n c e
      ∙ ap (engine.result_of condition) equal
      ∙ sym (engine.runs condition n (record c { identity = claims }) e)

  -- a condition that decides alike on both contexts
  enforce-other_claims :
      (c : JqContext) (claims : Dict) (condition : String) (configured : Bool)
      → (condition == "" ≡ true)
        ⊎ (svc.run_jq condition c ≡ svc.run_jq condition (record c { identity = claims }))
      → enforce svc c condition configured
        ≡ enforce svc (record c { identity = claims }) condition configured
  unfolding enforce
  enforce-other_claims c claims condition configured (inl e) = rw e refl
  enforce-other_claims c claims condition configured (inr e) = rw e refl

  fence-other_claims :
      (c : JqContext) (claims : Dict) (p : AccessPolicy) (configured fire : Bool)
      → get c.identity svc.owner_claim ≡ get claims svc.owner_claim
      → fence svc site true c p configured ≡ ok tt
      → fence svc site fire (record c { identity = claims }) p configured ≡ ok tt
  unfolding fence
  fence-other_claims c claims p configured fire same h =
      let (condition, e, h1) = >>=-eq-ok (render_errors (render_policy svc p)) _ h in
      let (_, e1, h2) = >>=-eq-ok (gate true condition) _ h1 in
      let (alike, again) = gate_passed condition e1 in
      let decided = sym (enforce-other_claims c claims condition configured alike) ∙ h2 in
      rw (e, again, decided) refl
    where
      gate : Bool → String → Result (Unit {0})
      gate b condition =
          if b && not (condition == "")
          then token_free_errors
              (assert_token_free_evaluable svc.compile_jq (codes svc.owner_claim) (codes condition))
          else ok tt

      gate_passed :
          (condition : String)
          → gate true condition ≡ ok tt
          → ((condition == "" ≡ true)
              ⊎ (svc.run_jq condition c ≡ svc.run_jq condition (record c { identity = claims })))
            × (gate fire condition ≡ ok tt)
      gate_passed condition k = elim (Bool-cases (condition == "")) [
        | inl b ↦ (inl b, rw b (ground arith))
        | inr b ↦
            let passes =
              gate_ok
                (assert_token_free_evaluable svc.compile_jq (codes svc.owner_claim)
                  (codes condition))
                (rw b at k) in
            (
              inr (run_jq-other_claims condition c claims same passes),
              rw (b, passes) (ground arith),
            )
      ]
        where
          gate_ok : (r : Result (Unit {0})) → token_free_errors r ≡ ok tt → r ≡ ok tt
          gate_ok (ok u) m = refl
          gate_ok (raise x) m = absurd (ground arith)

  owner_fence-other_claims :
      (context : AccessPolicy → JqContext) (claims : Dict) (o : Option AccessPolicy) (fire : Bool)
      → ((p : AccessPolicy) → get (context p).identity svc.owner_claim ≡ get claims svc.owner_claim)
      → owner_fence svc site true context o ≡ ok tt
      → owner_fence svc site fire (λ p. record (context p) { identity = claims }) o ≡ ok tt
  unfolding owner_fence
  owner_fence-other_claims context claims none fire same h = refl
  owner_fence-other_claims context claims (some p) fire same h =
      elim (Bool-cases (has_condition p)) [
        | inl e ↦ rw e (fence-other_claims (context p) claims p true fire (same p) (rw e at h))
        | inr e ↦ rw e refl
      ]

  -- The conditions of a key and of its owner that allow a fire allow the same dispatch, as a fire or as a
  -- request, under any claims that name the same owner.
  pub fences-other_claims :
      (user_id : String) (claims claims' context : Dict) (method path : Text) (scopes : List String)
      (p : AccessPolicy) (o : Option AccessPolicy) (fire : Bool)
      → get claims svc.owner_claim ≡ get claims' svc.owner_claim
      → fences svc site true user_id claims context method path scopes p o ≡ ok tt
      → fences svc site fire user_id claims' context method path scopes p o ≡ ok tt
  unfolding fences
  fences-other_claims user_id claims claims' context method path scopes p o fire same h =
      let c = jq_context svc user_id claims context (some method) path scopes p in
      let owner_context =
        λ (q : AccessPolicy). jq_context svc user_id claims context (some method) path q.scopes q in
      let (_, e, h1) =
        >>=-eq-ok (fence svc site true c p (has_condition p)) _ (fence_errors-eq-ok _ h) in
      let own = fence-other_claims c claims' p (has_condition p) fire same e in
      let owners = owner_fence-other_claims owner_context claims' o fire (λ q. same) h1 in
      rw (own, owners) refl
    where
      fence_errors-eq-ok : (r : Result (Unit {0})) → fence_errors r ≡ ok tt → r ≡ ok tt
      fence_errors-eq-ok (ok u) m = refl
      fence_errors-eq-ok (raise x) m = absurd (ground arith)
