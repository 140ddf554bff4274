-- ===== src/Authz/TokenFree/Noninterference.antt =====
-- The rule over a parsed condition, evaluated on two contexts that differ in their identity claims.
use tai_skeleton.Base.{
  ℕ, some, [], ◌∷◌, Text, ◌≡◌, inl, inr, refl, sym, ap, ◌∙◌, subst, nat_eq, list_eq, lookup, insert,
  ok, token_free_error, require, >>=-eq-ok, require-eq-ok, ok-injective,
}
use mathlib.Core.Path.{fun_ext}
use tai_skeleton.Authz.TokenFree.Syntax.{
  Node, root, constant, string, variable, projection, call, binary, negate, bind, try_only,
  try_catch, object, empty_array, array, Nodes, no_nodes, node, Suffix, field, each, index,
  optional, Suffixes, no_suffixes, suffix, static_name,
}
use tai_skeleton.Authz.TokenFree.Taint.{
  Taint, context, safe, either, Scope, require_safe, taint, all_safe, project, key_safe,
  assert_safe,
}
use tai_skeleton.Authz.TokenFree.Jq.{one, feed, Env, bound, Jq}
use tai_skeleton.Authz.TokenFree.Flow.{
  Near, Alike, Alike-of_eq, eq_of_Alike, Alike-feed, Alike-catching, Alike-either_left,
  Alike-either_right,
}
use tai_skeleton.Authz.TokenFree.Inversion.{require_safe-eq-ok, right_side, named_step}
use tai_skeleton.Authz.TokenFree.Reads.{
  SameButIdentity, NearEnv, NearEnv-bound, along, Alike-static, Alike-owner, eval-pipe,
  Alike-choice, eq_of_safe,
}

module _ (jq : Jq) (owner_claim : Text) (first second : jq.Value)
    (same : SameButIdentity jq owner_claim first second) where
  mutual
    unfolding taint

    flow :
        (n : Node) (sc : Scope) (t : Taint) (env env' : Env jq.Value) (v w : jq.Value)
        → taint owner_claim n sc ≡ ok t
        → NearEnv jq owner_claim first second same sc.variables env env'
        → Near first second sc.subject v w
        → Alike first second t (jq.eval n env v) (jq.eval n env' w)
    flow (root p) sc t env env' v w h ρ n =
        let e : sc.subject ≡ t = ok-injective h in
        along jq owner_claim first second same t (jq.eval_root p env v) (jq.eval_root p env' w)
          (subst (λ u. Near first second u v w) e n, tt)
    flow (constant p) sc t env env' v w h ρ n =
        Alike-of_eq first second t (jq.eval_constant p env v ∙ sym (jq.eval_constant p env' w))
    flow (string p s no_nodes) sc t env env' v w h ρ n =
        Alike-of_eq first second t (jq.eval_text p s env v ∙ sym (jq.eval_text p s env' w))
    flow (string p s (node m ms)) sc t env env' v w h ρ n =
        let (_, e, _) = >>=-eq-ok (all_safe owner_claim (node m ms) sc) _ h in
        Alike-of_eq first second t (
          jq.eval_string p s m ms env v
          ∙ ap (jq.interpolated p s) (flow_all (node m ms) sc env env' v w e ρ n)
          ∙ sym (jq.eval_string p s m ms env' w))
    flow (variable p x) sc t env env' v w h ρ n =
        let (a, b, ea, eb, near) = ρ x t (require-eq-ok _ _ h) in
        along jq owner_claim first second same t (jq.eval_variable p x env v a ea)
          (jq.eval_variable p x env' w b eb) (near, tt)
    flow (projection p m sfx) sc t env env' v w h ρ n =
        let (u, e, h1) = >>=-eq-ok (taint owner_claim m sc) _ h in
        flow_suffixes p m sfx sc u t env env' v w h1 ρ n (flow m sc u env env' v w e ρ n)
    flow (call p name ms) sc t env env' v w h ρ n =
        let (_, e, h1) = >>=-eq-ok (require_safe sc.subject) _ h in
        let (_, e1, _) = >>=-eq-ok (all_safe owner_claim ms _) _ h1 in
        let same_input : v ≡ w =
          subst (λ u. Near first second u v w) (require_safe-eq-ok sc.subject e) n in
        let same_filters = flow_filters ms sc env env' e1 ρ in
        Alike-of_eq first second t (
          jq.eval_call p name ms env v
          ∙ ap (λ fs. jq.builtin name fs v) same_filters
          ∙ ap (jq.builtin name (jq.filters ms env')) same_input
          ∙ sym (jq.eval_call p name ms env' w))
    flow (binary p op l r) sc t env env' v w h ρ n =
        let (a, e, h1) = >>=-eq-ok (taint owner_claim l sc) _ h in
        let left = flow l sc a env env' v w e ρ n in
        elim (right_side owner_claim op a t r sc h1) [
          | inl (c, h2) ↦
              along jq owner_claim first second same t
                (eval-pipe jq owner_claim first second same p op l r env v c)
                (eval-pipe jq owner_claim first second same p op l r env' w c)
                (Alike-feed first second a t _ _ _ _ left (λ x y near.
                  flow r (record { subject = a; variables = sc.variables }) t env env' x y h2 ρ
                    near))
          | inr (c, (b, e1, inl (d, join))) ↦
              subst
                (λ u.
                  Alike first second u (jq.eval (binary p op l r) env v)
                    (jq.eval (binary p op l r) env' w))
                join
                (Alike-choice jq owner_claim first second same p op l r (either a b) env env' v w d
                  (Alike-either_left first second a b _ _ left)
                  (Alike-either_right first second a b _ _ (flow r sc b env env' v w e1 ρ n)))
          | inr (c, (b, e1, inr (d, left_safe, right_safe))) ↦ Alike-of_eq first second t (
              jq.eval_binary p op l r env v c d
              ∙ ap (λ x. jq.operated op x (jq.eval r env v))
                  (eq_of_safe jq owner_claim first second same a _ _ left_safe left)
              ∙ ap (jq.operated op (jq.eval l env' w)) (
                  eq_of_safe jq owner_claim first second same b _ _ right_safe
                    (flow r sc b env env' v w e1 ρ n))
              ∙ sym (jq.eval_binary p op l r env' w c d))
        ]
    flow (negate p m) sc t env env' v w h ρ n =
        let (u, e, h1) = >>=-eq-ok (taint owner_claim m sc) _ h in
        let (_, e1, _) = >>=-eq-ok (require_safe u) _ h1 in
        Alike-of_eq first second t (
          jq.eval_negate p m env v
          ∙ ap jq.negated (
              eq_of_safe jq owner_claim first second same u _ _ (require_safe-eq-ok u e1)
                (flow m sc u env env' v w e ρ n))
          ∙ sym (jq.eval_negate p m env' w))
    flow (bind p m x body) sc t env env' v w h ρ n =
        let (u, e, h1) = >>=-eq-ok (taint owner_claim m sc) _ h in
        along jq owner_claim first second same t (jq.eval_bind p m x body env v)
          (jq.eval_bind p m x body env' w)
          (Alike-feed first second u t _ _ _ _ (flow m sc u env env' v w e ρ n) (λ a b near.
            flow body (record { subject = sc.subject; variables = insert x u sc.variables }) t
              (bound x a env) (bound x b env') v w h1
              (NearEnv-bound jq owner_claim first second same sc.variables env env' x u a b ρ near)
              n))
    flow (try_only p m) sc t env env' v w h ρ n =
        along jq owner_claim first second same t (jq.eval_try_only p m env v)
          (jq.eval_try_only p m env' w)
          (Alike-catching first second t _ _ _ _ (flow m sc t env env' v w h ρ n) (λ e. tt))
    flow (try_catch p m handler) sc t env env' v w h ρ n =
        let (a, e, h1) = >>=-eq-ok (taint owner_claim m sc) _ h in
        let (b, e1, h2) =
          >>=-eq-ok
            (taint owner_claim handler (record { subject = context; variables = sc.variables })) _
            h1 in
        let join : either a b ≡ t = ok-injective h2 in
        subst
          (λ u.
            Alike first second u (jq.eval (try_catch p m handler) env v)
              (jq.eval (try_catch p m handler) env' w))
          join
          (along jq owner_claim first second same (either a b) (jq.eval_try_catch p m handler env v)
            (jq.eval_try_catch p m handler env' w)
            (Alike-catching first second (either a b) _ _ _ _
              (Alike-either_left first second a b _ _ (flow m sc a env env' v w e ρ n))
              (λ x. Alike-either_right first second a b _ _ (
                flow handler (record { subject = context; variables = sc.variables }) b env env' x x
                  e1 ρ (inl refl)))))
    flow (object p ms) sc t env env' v w h ρ n =
        let (_, e, _) = >>=-eq-ok (all_safe owner_claim ms sc) _ h in
        Alike-of_eq first second t (
          jq.eval_object p ms env v
          ∙ ap (jq.constructed p) (flow_all ms sc env env' v w e ρ n)
          ∙ sym (jq.eval_object p ms env' w))
    flow (empty_array p) sc t env env' v w h ρ n =
        Alike-of_eq first second t
          (jq.eval_empty_array p env v ∙ sym (jq.eval_empty_array p env' w))
    flow (array p m) sc t env env' v w h ρ n =
        let (u, e, h1) = >>=-eq-ok (taint owner_claim m sc) _ h in
        let (_, e1, _) = >>=-eq-ok (require_safe u) _ h1 in
        Alike-of_eq first second t (
          jq.eval_array p m env v
          ∙ ap (jq.collected p) (
              eq_of_safe jq owner_claim first second same u _ _ (require_safe-eq-ok u e1)
                (flow m sc u env env' v w e ρ n))
          ∙ sym (jq.eval_array p m env' w))

    flow_all :
        (ns : Nodes) (sc : Scope) (env env' : Env jq.Value) (v w : jq.Value) {u : Unit {0}}
        → all_safe owner_claim ns sc ≡ ok u
        → NearEnv jq owner_claim first second same sc.variables env env'
        → Near first second sc.subject v w
        → jq.eval_all ns env v ≡ jq.eval_all ns env' w
    flow_all no_nodes sc env env' v w h ρ near =
        jq.eval_all_none env v ∙ sym (jq.eval_all_none env' w)
    flow_all (node n ns) sc env env' v w h ρ near =
        let (t, e, h1) = >>=-eq-ok (taint owner_claim n sc) _ h in
        let (_, e1, h2) = >>=-eq-ok (require_safe t) _ h1 in
        let head =
          eq_of_safe jq owner_claim first second same t _ _ (require_safe-eq-ok t e1)
            (flow n sc t env env' v w e ρ near) in
        let rest = flow_all ns sc env env' v w h2 ρ near in
        jq.eval_all_node n ns env v ∙ (λ i. head i ∷ rest i) ∙ sym (jq.eval_all_node n ns env' w)

    flow_filters :
        (ns : Nodes) (sc : Scope) (env env' : Env jq.Value) {u : Unit {0}}
        → all_safe owner_claim ns (record { subject = safe; variables = sc.variables }) ≡ ok u
        → NearEnv jq owner_claim first second same sc.variables env env'
        → jq.filters ns env ≡ jq.filters ns env'
    flow_filters no_nodes sc env env' h ρ = jq.filters_none env ∙ sym (jq.filters_none env')
    flow_filters (node n ns) sc env env' h ρ =
        let inner : Scope = record { subject = safe; variables = sc.variables } in
        let (t, e, h1) = >>=-eq-ok (taint owner_claim n inner) _ h in
        let (_, e1, h2) = >>=-eq-ok (require_safe t) _ h1 in
        let head : (λ v. jq.eval n env v) ≡ (λ v. jq.eval n env' v) = fun_ext (λ v.
          eq_of_safe jq owner_claim first second same t _ _ (require_safe-eq-ok t e1)
            (flow n inner t env env' v v e ρ refl)) in
        let rest = flow_filters ns sc env env' h2 ρ in
        jq.filters_node n ns env ∙ (λ i. head i ∷ rest i) ∙ sym (jq.filters_node n ns env')

    flow_suffixes :
        (p : ℕ) (n : Node) (sfx : Suffixes) (sc : Scope) (u t : Taint) (env env' : Env jq.Value)
        (v w : jq.Value)
        → project owner_claim u sfx sc ≡ ok t
        → NearEnv jq owner_claim first second same sc.variables env env'
        → Near first second sc.subject v w
        → Alike first second u (jq.eval n env v) (jq.eval n env' w)
        → Alike first second t
            (jq.eval (projection p n sfx) env v)
            (jq.eval (projection p n sfx) env' w)
    flow_suffixes p n no_suffixes sc u t env env' v w h ρ near a =
        let e : u ≡ t = ok-injective h in
        along jq owner_claim first second same t (jq.eval_no_suffixes p n env v)
          (jq.eval_no_suffixes p n env' w)
          (subst (λ k. Alike first second k (jq.eval n env v) (jq.eval n env' w)) e a)
    flow_suffixes p n (suffix s rest) sc safe t env env' v w h ρ near a =
        let (_, e, h1) = >>=-eq-ok (key_safe owner_claim s sc) _ h in
        let source = eq_of_Alike first second _ _ a in
        along jq owner_claim first second same t (jq.eval_suffixes p n s rest env v)
          (jq.eval_suffixes p n s rest env' w)
          (flow_suffixes p (projection p n (suffix s no_suffixes)) rest sc safe t env env' v w h1 ρ
            near
            (Alike-of_eq first second safe (flow_suffix p n s sc env env' v w e ρ near source)))
    flow_suffixes p n (suffix s rest) sc context t env env' v w h ρ near a =
        let (name, e, h1) = >>=-eq-ok (require (static_name s) token_free_error) _ h in
        let named = require-eq-ok (static_name s) token_free_error e in
        elim (named_step owner_claim name rest sc t h1) [
          | inl (is_identity, only, is_safe) ↦
              subst
                (λ u.
                  Alike first second u (jq.eval (projection p n (suffix s rest)) env v)
                    (jq.eval (projection p n (suffix s rest)) env' w))
                is_safe
                (Alike-owner jq owner_claim first second same p n s rest env env' v w
                  (named ∙ ap some is_identity) only a)
          | inr (other, h2) ↦
              along jq owner_claim first second same t (jq.eval_suffixes p n s rest env v)
                (jq.eval_suffixes p n s rest env' w)
                (flow_suffixes p (projection p n (suffix s no_suffixes)) rest sc safe t env env' v w
                  h2 ρ near
                  (Alike-static jq owner_claim first second same p n s name env env' v w named other
                    a))
        ]

    flow_suffix :
        (p : ℕ) (n : Node) (s : Suffix) (sc : Scope) (env env' : Env jq.Value) (v w : jq.Value)
        {u : Unit {0}}
        → key_safe owner_claim s sc ≡ ok u
        → NearEnv jq owner_claim first second same sc.variables env env'
        → Near first second sc.subject v w
        → jq.eval n env v ≡ jq.eval n env' w
        → jq.eval (projection p n (suffix s no_suffixes)) env v
          ≡ jq.eval (projection p n (suffix s no_suffixes)) env' w
    flow_suffix p n (field q name) sc env env' v w h ρ near e =
        jq.eval_field p q n name env v
        ∙ ap (λ x. jq.indexed x (one (jq.text name))) e
        ∙ sym (jq.eval_field p q n name env' w)
    flow_suffix p n (each q) sc env env' v w h ρ near e =
        jq.eval_each p q n env v ∙ ap (λ x. feed x jq.elements) e ∙ sym (jq.eval_each p q n env' w)
    flow_suffix p n (optional q) sc env env' v w h ρ near e =
        jq.eval_optional p q n env v ∙ ap jq.suppressed e ∙ sym (jq.eval_optional p q n env' w)
    flow_suffix p n (index q key) sc env env' v w h ρ near e =
        let (t, e1, h1) = >>=-eq-ok (taint owner_claim key sc) _ h in
        let same_key =
          eq_of_safe jq owner_claim first second same t _ _ (require_safe-eq-ok t h1)
            (flow key sc t env env' v w e1 ρ near) in
        jq.eval_index p q n key env v
        ∙ ap (λ x. jq.indexed x (jq.eval key env v)) e
        ∙ ap (jq.indexed (jq.eval n env' w)) same_key
        ∙ sym (jq.eval_index p q n key env' w)

  -- Under a condition that the rule passes, jq gives one stream of outputs for two auth contexts that
  -- differ only in identity claims other than the owner's.
  pub assert_safe-same_outputs :
      (program : Node) (env : Env jq.Value) {u : Unit {0}}
      → assert_safe owner_claim program ≡ ok u
      → jq.eval program env first ≡ jq.eval program env second
  unfolding assert_safe lookup
  assert_safe-same_outputs program env h =
      let start : Scope = record { subject = context; variables = [] } in
      let (t, e, h1) = >>=-eq-ok (taint owner_claim program start) _ h in
      eq_of_safe jq owner_claim first second same t _ _ (require_safe-eq-ok t h1)
        (flow program start t env env first second e (λ x t' k. cc) (inr (refl, refl)))
