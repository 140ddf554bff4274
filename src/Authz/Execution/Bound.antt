-- ===== src/Authz/Execution/Bound.antt =====
-- What a fire's identity and its doors rest on.
use tai_skeleton.Base.{
  ℕ, Bool, true, false, not, ◌≡◌, inl, inr, refl, ap, sym, subst, ◌∙◌, Option, none, some, String,
  arith, ==_iff, string_eq, lookup, Bool-cases, ok, permission_denied, no_policy, disabled,
  owner_disabled, owner_no_policy, raise_if, require, >>=-eq-ok, raise_if-eq-ok, require-eq-ok,
  ok-injective, if◌then◌else◌, no_identity, no_fingerprint,
}
use tai_skeleton.AccessControl.Policy.{
  Value, null, bool, str, opaque, is_null, get, AccessPolicy, Services, policy_is_empty,
  is_disabled, current_policy_version, get_policy_at,
}
use tai_skeleton.AccessControl.Verifier.{Site}
use tai_skeleton.Authz.Check.{
  CallerIdentity, claims_of, assert_policy_matches_fingerprint, assert_bound_key, live_owner,
  read_owner,
}
use tai_skeleton.Authz.Execution.{
  owner_authority, assert_key_carries_authority, owner_claims, build_execution_identity,
  authorize_capability,
}

-- A key that carries authority: the rows read for it, and that they are live.
pub record Carries (svc : Services) (site : Site) (key bound : String) (owner : Value)
    : Type 0 where
  pub version : ℕ
  pub policy : AccessPolicy
  pub owner_policy : Option AccessPolicy
  pub version_read : current_policy_version svc ≡ ok version
  pub policy_read : get_policy_at svc (str key) version ≡ ok policy
  pub not_empty : policy_is_empty policy ≡ false
  pub not_disabled : is_disabled policy ≡ false
  pub same_key : assert_policy_matches_fingerprint svc site policy bound ≡ ok tt
  pub owner_stored : get policy.policy_data svc.owner_claim ≡ owner
  pub owner_live : read_owner svc site owner version ≡ ok owner_policy

is_null-null : (v : Value) → is_null v ≡ true → v ≡ null
is_null-null null h = refl
is_null-null (bool b) h = absurd (ground arith)
is_null-null (str s) h = absurd (ground arith)
is_null-null (opaque n) h = absurd (ground arith)

owner_authority-live :
    (svc : Services) (site : Site) (owner found : Value) (version : ℕ)
    → owner_authority svc site owner version ≡ ok found
    → (owner ≡ found) × ((o : Option AccessPolicy) × (read_owner svc site owner version ≡ ok o))
unfolding owner_authority read_owner live_owner
owner_authority-live svc site owner found version h = elim (Bool-cases (is_null owner)) [
  | inl e ↦ (is_null-null owner e ∙ ok-injective (rw e at h), (none, rw e refl))
  | inr e ↦
      let (p, e1, h1) = >>=-eq-ok (get_policy_at svc owner version) _ (rw e at h) in
      let (_, e2, h2) =
        >>=-eq-ok (raise_if (is_disabled p) (permission_denied owner_disabled)) _ h1 in
      let (_, e3, h3) =
        >>=-eq-ok (raise_if (policy_is_empty p) (permission_denied owner_no_policy)) _ h2 in
      let d = raise_if-eq-ok _ _ e2 in
      let m = raise_if-eq-ok _ _ e3 in
      (ok-injective h3, (some p, rw (e, e1) (rw (live_owner, d, m) refl)))
]

pub assert_key_carries_authority-Carries :
    (svc : Services) (site : Site) (key bound : String) (owner : Value)
    → assert_key_carries_authority svc site key bound ≡ ok owner
    → Carries svc site key bound owner
unfolding assert_key_carries_authority
assert_key_carries_authority-Carries svc site key bound owner h =
    let (v, e1, h1) = >>=-eq-ok (current_policy_version svc) _ h in
    let (p, e2, h2) = >>=-eq-ok (get_policy_at svc (str key) v) _ h1 in
    let (_, e3, h3) = >>=-eq-ok (raise_if (policy_is_empty p) (permission_denied no_policy)) _ h2 in
    let (_, e4, h4) = >>=-eq-ok (raise_if (is_disabled p) (permission_denied disabled)) _ h3 in
    let (_, e5, h5) = >>=-eq-ok (assert_policy_matches_fingerprint svc site p bound) _ h4 in
    let (same, (o, live)) =
      owner_authority-live svc site (get p.policy_data svc.owner_claim) owner v h5 in
    record {
      version = v;
      policy = p;
      owner_policy = o;
      version_read = e1;
      policy_read = e2;
      not_empty = raise_if-eq-ok _ _ e3;
      not_disabled = raise_if-eq-ok _ _ e4;
      same_key = e5;
      owner_stored = same;
      owner_live = subst (λ w. read_owner svc site w v ≡ ok o) same live;
    }

get-owner_claims :
    (svc : Services) (site : Site) (owner : Value)
    → get (owner_claims svc site owner) svc.owner_claim ≡ owner
unfolding get lookup
get-owner_claims svc site owner = elim (Bool-cases (is_null owner)) [
  | inl e ↦ rw e (sym (is_null-null owner e))
  | inr e ↦ rw e (ground (arith, ==_iff svc.owner_claim svc.owner_claim))
]

-- An identity that was built for a fire: it names the key and the fingerprint, the key and its owner
-- are live, and the terms of the tool edge that ask for that pass on the same rows.
pub record BuiltFor (svc : Services) (site : Site) (key bound : String) (identity : CallerIdentity)
    : Type 0 where
  pub owner : Value
  pub carries : Carries svc site key bound owner
  pub names_key : identity.user_id ≡ some key
  pub external : identity.is_internal ≡ false
  pub names_bound : identity.execution_key_fingerprint ≡ some bound
  pub key_term : assert_bound_key svc site true identity carries.policy ≡ ok tt
  pub owner_term :
      read_owner svc site (get (claims_of identity) svc.owner_claim) carries.version
      ≡ ok carries.owner_policy

abbrev fire_identity : Services → Site → String → String → Value → CallerIdentity
fire_identity svc site key bound owner = record {
  user_id = some key;
  is_internal = false;
  effective_scopes = none;
  claims = some (owner_claims svc site owner);
  execution_key_fingerprint = some bound;
}

fire_identity-BuiltFor :
    (svc : Services) (site : Site) (key bound : String) (owner : Value)
    → Carries svc site key bound owner
    → BuiltFor svc site key bound (fire_identity svc site key bound owner)
unfolding assert_bound_key
fire_identity-BuiltFor svc site key bound owner c = record {
  owner = owner;
  carries = c;
  names_key = refl;
  external = refl;
  names_bound = refl;
  key_term = c.same_key;
  owner_term =
      ap (λ w. read_owner svc site w c.version) (get-owner_claims svc site owner) ∙ c.owner_live;
}

pub when_on {ℓ} : {A : Type ℓ} (b : Bool) (x y : A) → b ≡ true → (if not b then x else y) ≡ y
when_on b x y h = rw h refl

-- With access control on, an identity that is built for a fire rests on a live key and a live owner,
-- and passes the liveness terms of the tool edge (bound key and owner) on the rows it was built from.
pub build_execution_identity-BuiltFor :
    (svc : Services) (site : Site) (key bound : String) (identity : CallerIdentity)
    → site.settings.enable ≡ true
    → build_execution_identity svc site key bound ≡ ok identity
    → BuiltFor svc site key bound identity
unfolding build_execution_identity
build_execution_identity-BuiltFor svc site key bound identity on h =
    let built = sym (when_on site.settings.enable _ _ on) ∙ h in
    let (owner, e, h1) = >>=-eq-ok (assert_key_carries_authority svc site key bound) _ built in
    subst (BuiltFor svc site key bound) (ok-injective h1) (
      fire_identity-BuiltFor svc site key bound owner
        (assert_key_carries_authority-Carries svc site key bound owner e))

pub authorize_capability-Carries :
    (svc : Services) (site : Site) (identity : CallerIdentity)
    → identity.is_internal ≡ false
    → authorize_capability svc site identity ≡ ok tt
    → (key : String) × (bound : String) × (owner : Value) × (identity.user_id ≡ some key)
      × (identity.execution_key_fingerprint ≡ some bound)
      × Carries svc site key bound owner
unfolding authorize_capability
authorize_capability-Carries svc site identity external h =
    let h0 = rw external at h in
    let (key, e1, h1) = >>=-eq-ok (require identity.user_id (permission_denied no_identity)) _ h0 in
    let (bound, e2, h2) =
      >>=-eq-ok (require identity.execution_key_fingerprint (permission_denied no_fingerprint)) _
        h1 in
    let (owner, e3, h3) = >>=-eq-ok (assert_key_carries_authority svc site key bound) _ h2 in
    (
      key,
      bound,
      owner,
      require-eq-ok _ _ e1,
      require-eq-ok _ _ e2,
      assert_key_carries_authority-Carries svc site key bound owner e3,
    )
