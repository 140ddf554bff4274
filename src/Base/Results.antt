-- ===== src/Base/Results.antt =====
-- Code that may raise: the exceptions that the modelled code raises or tells apart, and their
-- propagation.
use mathlib.Core.Path.{◌≡◌, refl}
use mathlib.Core.Bool.{Bool, true, false}
use mathlib.Core.Logic.{◌⊎◌, inl, inr}
use mathlib.Core.Option.{Option, none, some}

-- Why a `PermissionDenied` of authz/ was raised: its message.
pub data Denial : Type 0 where
  missing_argument several_segments not_a_segment : Denial
  malformed_path not_own_route no_route : Denial
  no_identity no_resource disabled no_policy no_fingerprint fingerprint_mismatch : Denial
  owner_disabled owner_no_policy scope_miss condition_rejected condition_unrendered : Denial
  condition_not_token_free level_denied read_fault : Denial

pub data Exc : Type 0 where
  permission_denied : Denial → Exc
  malformed_path_error value_error key_error template_error template_not_found : Exc
  token_free_error execution_condition_error authentication_error policy_evaluation_error : Exc
  document_not_found document_exists document_version_not_found unsettled runtime_error : Exc
  cross_identity_error not_implemented_error : Exc
  -- no exception of the program: a loop of the model that was given too few rounds
  out_of_fuel : Exc
  -- any other exception, as the driver of a store may raise
  fault : Exc

pub data Result {ℓ} (A : Type ℓ) : Type ℓ where
  ok : A → Result A
  raise : Exc → Result A

abbrev pub ◌>>=◌ {ℓ κ} : {B : Type κ} {A : Type ℓ} → Result A → (A → Result B) → Result B
raise x >>= next = raise x
ok a >>= next = next a

-- if b: raise e
abbrev pub raise_if : Bool → Exc → Result (Unit {0})
raise_if true e = raise e
raise_if false e = ok tt

-- except Exception as exc: raise e from exc
abbrev pub or_raise {ℓ} : {A : Type ℓ} → Result A → Exc → Result A
or_raise (ok a) e = ok a
or_raise (raise x) e = raise e

-- a value that may be missing, with the exception that its absence is
abbrev pub require {ℓ} : {A : Type ℓ} → Option A → Exc → Result A
require (some a) e = ok a
require none e = raise e

abbrev pub ◌>>◌ {κ} : {B : Type κ} → Result (Unit {0}) → Result B → Result B
first >> next = first >>= λ _. next

infixl 5 ◌>>=◌ ◌>>◌
pub raise_if-eq-ok : (b : Bool) (e : Exc) {u : Unit {0}} → raise_if b e ≡ ok u → b ≡ false
raise_if-eq-ok true e h = cc
raise_if-eq-ok false e h = refl

pub >>=-eq-ok {ℓ κ} :
    {B : Type κ} {A : Type ℓ} (first : Result A) (next : A → Result B) {b : B}
    → (first >>= next) ≡ ok b
    → (a : A) × (first ≡ ok a) × (next a ≡ ok b)
>>=-eq-ok (raise x) next h = cc
>>=-eq-ok (ok a) next h = (a, refl, h)

pub or_raise-eq-ok {ℓ} :
    {A : Type ℓ} (m : Result A) (e : Exc) {a : A} → or_raise m e ≡ ok a → m ≡ ok a
or_raise-eq-ok (ok b) e h = h
or_raise-eq-ok (raise x) e h = cc

pub require-eq-ok {ℓ} :
    {A : Type ℓ} (o : Option A) (e : Exc) {a : A} → require o e ≡ ok a → o ≡ some a
require-eq-ok (some b) e h = cc
require-eq-ok none e h = cc

pub Result-cases {ℓ} :
    {A : Type ℓ} (r : Result A) → ((a : A) × (r ≡ ok a)) ⊎ ((e : Exc) × (r ≡ raise e))
Result-cases (ok a) = inl (a, refl)
Result-cases (raise e) = inr (e, refl)

pub ok-injective {ℓ} : {A : Type ℓ} {a b : A} → ok a ≡ ok b → a ≡ b
ok-injective h = cc
