-- ===== src/AccessControl/Isolation.antt =====
-- access_control/user.py: the principal that acts, the identity that an owned key is confined to, and
-- what it may address. `caller` is what the context variables of a dispatch hold.
use tai_skeleton.Base.{
  Bool, false, not, Option, none, some, String, ◌==◌, string_eq, if◌then◌else◌, Result, ok, raise,
  runtime_error, cross_identity_error, ◌>>=◌,
}
use tai_skeleton.AccessControl.Policy.{Dict, is_null, get}

pub record ExecutionIdentity : Type 0 where
  pub user_id : String
  pub claims : Dict

pub record Caller : Type 0 where
  pub execution_identity : Option ExecutionIdentity
  pub current_user_id : Option String
  pub request_claims : Option Dict

-- A bound execution identity comes first.
unfoldable pub acting_principal : Caller → Option String × Option Dict
acting_principal caller = elim caller.execution_identity [
  | none ↦ (caller.current_user_id, caller.request_claims)
  | some identity ↦ (some identity.user_id, some identity.claims)
]

-- what a write door may address, for a caller confined to `own`
unfoldable pub clamp : Option String → Option String → Result (Option String)
clamp none audience = ok audience
clamp (some own) none = ok (some own)
clamp (some own) (some audience) =
    if audience == own then ok (some audience) else raise cross_identity_error

module _ (owner_claim : String) where
  -- claims.get(OWNER_USER_ID_CLAIM) is not None
  abbrev is_owned : Option Dict → Bool
  is_owned none = false
  is_owned (some claims) = not (is_null (get claims owner_claim))

  unfoldable pub restricted_identity : Caller → Result (Option String)
  restricted_identity caller =
      let (own, claims) = acting_principal caller in
      if is_owned claims
      then elim own [ none ↦ raise runtime_error | some id ↦ ok (some id) ]
      else ok none

  unfoldable pub clamp_write_audience : Caller → Option String → Result (Option String)
  clamp_write_audience caller audience = do own ← restricted_identity caller; clamp own audience

  unfoldable pub request_identity : Caller → Result (Option String × Option String)
  request_identity caller = do
    restricted ← restricted_identity caller
    ok ((acting_principal caller).0, restricted)
