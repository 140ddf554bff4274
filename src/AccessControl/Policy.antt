-- ===== src/AccessControl/Policy.antt =====
-- access_control/policy.py and user.py: policies, the services that a decision reads, the jq
-- enforcement and the admin discriminator.
pub mod Scopes
use tai_skeleton.Base.{
  ℕ, Bool, true, false, ◌&&◌, ◌||◌, not, Option, none, some, List, [], ◌∷◌, String, Text, ◌==◌,
  string_eq, elem, keep, lookup, is_empty, if◌then◌else◌, Exc, Result, ok, raise,
  authentication_error, policy_evaluation_error, ◌>>=◌, ◌>>◌, raise_if, or_raise,
}
use tai_skeleton.AccessControl.RoleGate.{RoleGrants}

-- A JSON value. `opaque` are the numbers, lists and objects, which this code only hands on.
pub data Value : Type 0 where
  null : Value
  bool : Bool → Value
  str : String → Value
  opaque : ℕ → Value

abbrev pub is_null : Value → Bool
is_null null = true
is_null _ = false

-- v is True
abbrev pub is_true : Value → Bool
is_true (bool b) = b
is_true _ = false

-- v == s, for a text s
abbrev pub equals : Value → String → Bool
equals (str t) s = t == s
equals _ s = false

abbrev pub Dict : Type 0
Dict = List (String × Value)

-- d.get(k)
unfoldable pub get : Dict → String → Value
get d k = elim (lookup k d) [ none ↦ null | some v ↦ v ]

-- The fields of the contract's `AccessPolicy` that this code reads.
pub record AccessPolicy : Type 0 where
  pub scopes : List String
  pub policy_data : Dict
  pub condition : Option String
  pub condition_id : Option String
  pub condition_kwargs : Dict

abbrev pub empty_policy : AccessPolicy
empty_policy = record {
  scopes = [];
  policy_data = [];
  condition = none;
  condition_id = none;
  condition_kwargs = [];
}

pub record JqContext : Type 0 where
  pub sub : String
  pub scopes : List String
  pub identity : Dict
  pub policy : Dict
  pub context : Dict
  pub method : Option Text
  pub path : Text
  pub time : ℕ

-- What a decision reads from outside this code, as one decision finds it: the store's rows through
-- the caches keyed on a policy version, the Redis counters, the clock, and the template and jq
-- engines. A read that fails raises.
pub record Services : Type 0 where
  pub owner_claim : String
  pub fingerprint_claim : String
  pub stored_version : Result (Option ℕ)
  pub policy_body : Value → ℕ → Result (Option AccessPolicy)
  pub live_context : String → Result Dict
  pub render : Option String → Option String → Dict → Result String
  pub run_jq : String → JqContext → Result Value
  pub compile_jq : Text → Result (Unit {0})
  pub role_grants : Value → ℕ → Result RoleGrants
  pub fetch_route : Text → ℕ → Result (Option String)
  pub dynamic_patterns : ℕ → Result (List ((Text → Bool) × Text))
  pub is_decimal : ℕ → Bool
  pub now : ℕ

abbrev pub is_some {ℓ} : {A : Type ℓ} → Option A → Bool
is_some none = false
is_some (some a) = true

-- condition is not None or condition_id is not None
abbrev pub has_condition : AccessPolicy → Bool
has_condition p = is_some p.condition || is_some p.condition_id

unfoldable pub policy_is_empty : AccessPolicy → Bool
policy_is_empty p = is_empty p.scopes && not (has_condition p)

abbrev pub is_disabled : AccessPolicy → Bool
is_disabled p = is_true (get p.policy_data "disabled")

unfoldable pub is_admin_policy : AccessPolicy → Value → Bool
is_admin_policy p owner = elem "*" p.scopes && (not (has_condition p) && is_null owner)

module _ (svc : Services) where
  -- `int(raw) if raw is not None else 0`
  unfoldable pub current_policy_version : Result ℕ
  current_policy_version = do raw ← svc.stored_version; ok (elim raw [ none ↦ 0 | some v ↦ v ])

  unfoldable pub get_policy_at : Value → ℕ → Result AccessPolicy
  get_policy_at principal version = do
    body ← svc.policy_body principal version
    ok (elim body [ none ↦ empty_policy | some p ↦ p ])

  unfoldable pub get_policy : Value → Result AccessPolicy
  get_policy principal = do version ← current_policy_version; get_policy_at principal version

  -- An authentication error of the evaluation stays what it is, any other is an evaluation error.
  abbrev pub evaluated : Result Value → Result Value
  evaluated (ok v) = ok v
  evaluated (raise authentication_error) = raise authentication_error
  evaluated (raise _) = raise policy_evaluation_error

  unfoldable pub enforce : JqContext → String → Bool → Result (Unit {0})
  enforce context expression condition_configured =
      if expression == "" then raise_if condition_configured authentication_error else (do
        result ← evaluated (svc.run_jq expression context)
        raise_if (not (is_true result)) authentication_error)

  -- render_by_id_or_content of a policy's condition
  abbrev pub render_policy : AccessPolicy → Result String
  render_policy p = svc.render p.condition p.condition_id p.condition_kwargs

-- access_control/backend.py: the scopes that an owned key carries
unfoldable pub effective_scopes : List String → List String → List String
effective_scopes key_scopes owner_scopes =
    if elem "*" owner_scopes
    then key_scopes
    else if elem "*" key_scopes
    then owner_scopes
    else keep (λ scope. elem scope owner_scopes) key_scopes
