-- ===== src/Authz/TokenFree/Reads.antt =====
-- What a condition can read of two contexts that differ in their identity claims.
use tai_skeleton.Base.{
  ℕ, true, some, List, Text, codes, ◌≡◌, ◌≢◌, inl, inr, refl, sym, ap, ◌∙◌, subst, ◌==◌, ==_iff,
  nat_eq, list_eq, Bool-cases, lookup, insert, lookup-insert,
}
use tai_skeleton.Authz.TokenFree.Syntax.{
  Node, string, projection, binary, no_nodes, Suffix, field, index, Suffixes, no_suffixes, suffix,
  static_name, literal_text,
}
use tai_skeleton.Authz.TokenFree.Taint.{Taint, context, safe, is_pipe, is_choice, is_owner_only}
use tai_skeleton.Authz.TokenFree.Jq.{Stream, feed, Env, bound, Jq}
use tai_skeleton.Authz.TokenFree.Flow.{
  Near, Alike, Alike-of_eq, eq_of_Alike, Alike-append, Alike-feed, Alike-or_else, Alike-truthy_only,
  feed-feed,
}
use tai_skeleton.Authz.TokenFree.Inversion.{is_owner-eq}

-- Two auth contexts that differ in their identity claims, the owner's excepted.
pub record SameButIdentity (jq : Jq) (owner_claim : Text) (first second : jq.Value) : Type 0 where
  pub fields :
      (name : Text)
      → name ≢ codes "identity"
      → jq.at first (jq.text name) ≡ jq.at second (jq.text name)
  pub owner :
      feed (jq.at first (jq.text (codes "identity"))) (λ v. jq.at v (jq.text owner_claim))
      ≡ feed (jq.at second (jq.text (codes "identity"))) (λ v. jq.at v (jq.text owner_claim))
  pub first_truthy : jq.truthy first ≡ true
  pub second_truthy : jq.truthy second ≡ true

module _ (jq : Jq) (owner_claim : Text) (first second : jq.Value)
    (same : SameButIdentity jq owner_claim first second) where
  -- variables at run time agree with their taint
  abbrev pub NearEnv : List (Text × Taint) → Env jq.Value → Env jq.Value → Type 0
  NearEnv vars env env' =
      (x : Text) (t : Taint)
      → lookup x vars ≡ some t
      → (v : jq.Value) × (w : jq.Value) × (env x ≡ some v)
        × (env' x ≡ some w)
        × Near first second t v w

  pub NearEnv-bound :
      (vars : List (Text × Taint)) (env env' : Env jq.Value) (x : Text) (t : Taint) (v w : jq.Value)
      → NearEnv vars env env'
      → Near first second t v w
      → NearEnv (insert x t vars) (bound x v env) (bound x w env')
  unfolding bound
  NearEnv-bound vars env env' x t v w ρ n y u h =
      let found = sym (lookup-insert x y t vars) ∙ h in
      elim (Bool-cases (x == y)) [
        | inl e ↦
            let u_is : t ≡ u = let g : some t ≡ some u = rw e at found in cc in
            rw e (v, w, refl, refl, subst (λ k. Near first second k v w) u_is n)
        | inr e ↦ let g : lookup y vars ≡ some u = rw e at found in rw e (ρ y u g)
      ]

  -- the chain .identity.owner of a value that may be the context
  owner-Near :
      (x y : jq.Value)
      → Near first second context x y
      → feed (jq.at x (jq.text (codes "identity"))) (λ v. jq.at v (jq.text owner_claim))
        ≡ feed (jq.at y (jq.text (codes "identity"))) (λ v. jq.at v (jq.text owner_claim))
  owner-Near x y (inl h) = rw h refl
  owner-Near x y (inr (h, k)) = rw (h, k) same.owner

  field-Near :
      (x y : jq.Value) (name : Text)
      → name ≢ codes "identity"
      → Near first second context x y
      → jq.at x (jq.text name) ≡ jq.at y (jq.text name)
  field-Near x y name d (inl h) = rw h refl
  field-Near x y name d (inr (h, k)) = rw (h, k) (same.fields name d)

  -- a suffix with a static name is the lookup of that name
  eval-static :
      (p : ℕ) (n : Node) (s : Suffix) (name : Text) (env : Env jq.Value) (v : jq.Value)
      → static_name s ≡ some name
      → jq.eval (projection p n (suffix s no_suffixes)) env v
        ≡ feed (jq.eval n env v) (λ w. jq.at w (jq.text name))
  unfolding static_name literal_text
  eval-static p n (field q name') name env v h =
      let e : name' ≡ name = cc in
      jq.eval_field p q n name' env v
      ∙ jq.indexed_one _ _
      ∙ ap (λ k. feed (jq.eval n env v) (λ w. jq.at w (jq.text k))) e
  eval-static p n (index q (string r value no_nodes)) name env v h =
      let e : value ≡ name = cc in
      jq.eval_index p q n (string r value no_nodes) env v
      ∙ ap (jq.indexed (jq.eval n env v)) (jq.eval_text r value env v)
      ∙ jq.indexed_one _ _
      ∙ ap (λ k. feed (jq.eval n env v) (λ w. jq.at w (jq.text k))) e
  eval-static p n _ name env v h = cc

  pub along :
      (t : Taint) {s s' r r' : Stream jq.Value}
      → s ≡ s'
      → r ≡ r'
      → Alike first second t s' r'
      → Alike first second t s r
  along t {s} {s'} {r} {r'} e f h =
      subst (λ a. Alike first second t a r) (sym e)
        (subst (λ b. Alike first second t s' b) (sym f) h)

  -- a suffix chain on streams of the context, which names a field first
  pub Alike-static :
      (p : ℕ) (n : Node) (s : Suffix) (name : Text) (env env' : Env jq.Value) (v w : jq.Value)
      → static_name s ≡ some name
      → name ≢ codes "identity"
      → Alike first second context (jq.eval n env v) (jq.eval n env' w)
      → Alike first second safe
          (jq.eval (projection p n (suffix s no_suffixes)) env v)
          (jq.eval (projection p n (suffix s no_suffixes)) env' w)
  Alike-static p n s name env env' v w h d a =
      along safe (eval-static p n s name env v h) (eval-static p n s name env' w h) (
        Alike-feed first second context safe _ _ _ _ a
          (λ x y near. Alike-of_eq first second safe (field-Near x y name d near)))

  eval-owner :
      (p : ℕ) (n : Node) (s s' : Suffix) (env : Env jq.Value) (v : jq.Value)
      → static_name s ≡ some (codes "identity")
      → static_name s' ≡ some owner_claim
      → jq.eval (projection p n (suffix s (suffix s' no_suffixes))) env v
        ≡ feed
            (jq.eval n env v)
            (λ x. feed (jq.at x (jq.text (codes "identity"))) (λ y. jq.at y (jq.text owner_claim)))
  eval-owner p n s s' env v h k =
      jq.eval_suffixes p n s (suffix s' no_suffixes) env v
      ∙ eval-static p (projection p n (suffix s no_suffixes)) s' owner_claim env v k
      ∙ ap (λ r. feed r (λ y. jq.at y (jq.text owner_claim)))
          (eval-static p n s (codes "identity") env v h)
      ∙ feed-feed (jq.eval n env v) _ _

  pub Alike-owner :
      (p : ℕ) (n : Node) (s : Suffix) (rest : Suffixes) (env env' : Env jq.Value) (v w : jq.Value)
      → static_name s ≡ some (codes "identity")
      → is_owner_only owner_claim rest ≡ true
      → Alike first second context (jq.eval n env v) (jq.eval n env' w)
      → Alike first second safe
          (jq.eval (projection p n (suffix s rest)) env v)
          (jq.eval (projection p n (suffix s rest)) env' w)
  unfolding is_owner_only
  Alike-owner p n s (suffix s' no_suffixes) env env' v w h only a =
      let named = is_owner-eq owner_claim (static_name s') only in
      along safe (eval-owner p n s s' env v h named) (eval-owner p n s s' env' w h named) (
        Alike-feed first second context safe _ _ _ _ a
          (λ x y near. Alike-of_eq first second safe (owner-Near x y near)))
  Alike-owner p n s _ env env' v w h only a = cc

  -- a safe part has the same stream
  pub eq_of_safe : (t : Taint) (s r : Stream jq.Value) → t ≡ safe → Alike first second t s r → s ≡ r
  eq_of_safe t s r e a = eq_of_Alike first second s r (subst (λ u. Alike first second u s r) e a)

  pub eval-pipe :
      (p : ℕ) (op : Text) (l r : Node) (env : Env jq.Value) (v : jq.Value)
      → is_pipe op ≡ true
      → jq.eval (binary p op l r) env v ≡ feed (jq.eval l env v) (λ w. jq.eval r env w)
  eval-pipe p op l r env v h =
      let e : op ≡ codes "|" = (==_iff op (codes "|")).0 h in
      ap (λ o. jq.eval (binary p o l r) env v) e ∙ jq.eval_pipe p l r env v

  pub Alike-choice :
      (p : ℕ) (op : Text) (l r : Node) (t : Taint) (env env' : Env jq.Value) (v w : jq.Value)
      → is_choice op ≡ true
      → Alike first second t (jq.eval l env v) (jq.eval l env' w)
      → Alike first second t (jq.eval r env v) (jq.eval r env' w)
      → Alike first second t (jq.eval (binary p op l r) env v) (jq.eval (binary p op l r) env' w)
  Alike-choice p op l r t env env' v w h a b = elim (Bool-cases (op == codes ",")) [
    | inl c ↦
        let e : op ≡ codes "," = (==_iff op (codes ",")).0 c in
        let comma = λ (env : Env jq.Value) (v : jq.Value).
          ap (λ o. jq.eval (binary p o l r) env v) e ∙ jq.eval_comma p l r env v in
        along t (comma env v) (comma env' w) (Alike-append first second t _ _ _ _ a b)
    | inr c ↦
        let e : op ≡ codes "//" = (==_iff op (codes "//")).0 (rw c at h) in
        let alternative = λ (env : Env jq.Value) (v : jq.Value).
          ap (λ o. jq.eval (binary p o l r) env v) e ∙ jq.eval_alternative p l r env v in
        along t (alternative env v) (alternative env' w) (
          Alike-or_else first second t _ _ _ _
            (Alike-truthy_only first second jq.truthy same.first_truthy same.second_truthy t _ _ a)
            b)
  ]
