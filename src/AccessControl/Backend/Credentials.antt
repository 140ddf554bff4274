-- ===== src/AccessControl/Backend/Credentials.antt =====
-- Which credentials count, and what claims they carry.
use tai_skeleton.Base.{
  Bool, true, false, not, ◌≡◌, ◌⊎◌, inl, inr, refl, ap, sym, ◌∙◌, none, some, List, [], ◌∷◌, ◌++◌,
  String, Text, arith, ◌==◌, ==_iff, string_eq, keep, lookup, All, ok, Result-cases, Bool-cases,
  ok-injective, some-eq_lem, >>=-eq-ok, subst, elem, nat_eq, list_eq, is_empty,
}
use tai_skeleton.AccessControl.Policy.{is_null, Dict, get}
use tai_skeleton.AccessControl.Policy.{Services}
use tai_skeleton.AccessControl.Backend.{
  Conn, AuthIdentity, Provider, AccessToken, strip_owner, verify_token, first_valid,
  get_access_token, extract_credential_candidates,
}

lookup-keep_other : (k : String) (d : Dict) → lookup k (keep (λ kv. not (kv.0 == k)) d) ≡ none
unfolding lookup keep
lookup-keep_other k [] = refl
lookup-keep_other k ((j, v) ∷ d) = ground (arith, ==_iff j k, ==_iff k j, lookup-keep_other k d)

strip_owner-mints :
    (svc : Services) (mints : Bool) (claims : Dict)
    → is_null (get (strip_owner svc mints claims) svc.owner_claim) ≡ false
    → mints ≡ true
unfolding strip_owner get
strip_owner-mints svc true claims h = refl
strip_owner-mints svc false claims h =
    absurd (ground (arith, lookup-keep_other svc.owner_claim claims))

-- A provider vouches for a token: it validates it, with the claims that the token then carries.
pub record Vouched (svc : Services) (p : Provider) (token : Text) (t : AccessToken) : Type 0 where
  pub identity : AuthIdentity
  pub validated : p.validate_token token ≡ ok (some identity)
  pub client : t.client_id ≡ identity.user_id
  pub carried : t.claims ≡ strip_owner svc p.mints_keys identity.claims

abbrev pub DoesNotKnow : Text → Provider → Type 0
DoesNotKnow token p = p.validate_token token ≡ ok none

pub record FirstToKnow (svc : Services) (providers : List Provider) (token : Text) (t : AccessToken)
    : Type 0 where
  pub front : List Provider
  pub provider : Provider
  pub back : List Provider
  pub placed : providers ≡ front ++ provider ∷ back
  pub before : All (DoesNotKnow token) front
  pub vouched : Vouched svc provider token t

known_here :
    (svc : Services) (p : Provider) (ps : List Provider) (token : Text) (i : AuthIdentity)
    (t : AccessToken)
    → p.validate_token token ≡ ok (some i)
    → record { client_id = i.user_id; claims = strip_owner svc p.mints_keys i.claims } ≡ t
    → FirstToKnow svc (p ∷ ps) token t
known_here svc p ps token i t e same = record {
  front = [];
  provider = p;
  back = ps;
  placed = refl;
  before = tt;
  vouched = record {
    identity = i;
    validated = e;
    client = ap (λ x. x.client_id) (sym same);
    carried = ap (λ x. x.claims) (sym same);
  };
}

known_later :
    (svc : Services) (p : Provider) (ps : List Provider) (token : Text) (t : AccessToken)
    → p.validate_token token ≡ ok none
    → FirstToKnow svc ps token t
    → FirstToKnow svc (p ∷ ps) token t
known_later svc p ps token t e k = record {
  front = p ∷ k.front;
  provider = k.provider;
  back = k.back;
  placed = ap (λ l. p ∷ l) k.placed;
  before = (e, k.before);
  vouched = k.vouched;
}

verify_token-FirstToKnow :
    (svc : Services) (providers : List Provider) (token : Text) (t : AccessToken)
    → verify_token svc providers token ≡ ok (some t)
    → FirstToKnow svc providers token t
unfolding verify_token
verify_token-FirstToKnow svc [] token t h = absurd (ground arith)
verify_token-FirstToKnow svc (p ∷ ps) token t h = elim (Result-cases (p.validate_token token)) [
  | inr (x, e) ↦ absurd (ground (arith, e))
  | inl (none, e) ↦
      known_later svc p ps token t e (verify_token-FirstToKnow svc ps token t (rw e at h))
  | inl (some i, e) ↦
      let h1 = rw e at h in known_here svc p ps token i t e (some-eq_lem (ok-injective h1))
]

first_valid-candidate :
    (svc : Services) (providers : List Provider) (tokens : List Text) (t : AccessToken)
    → first_valid svc providers tokens ≡ ok t
    → (token : Text) × (elem token tokens ≡ true) × (verify_token svc providers token ≡ ok (some t))
unfolding first_valid elem
first_valid-candidate svc providers [] t h = absurd (ground arith)
first_valid-candidate svc providers (token ∷ tokens) t h =
    elim (Result-cases (verify_token svc providers token)) [
      | inr (x, e) ↦
          let (k, m, v) = first_valid-candidate svc providers tokens t (rw (e, first_valid) at h) in
          (k, ground (arith, m), v)
      | inl (none, e) ↦
          let (k, m, v) = first_valid-candidate svc providers tokens t (rw (e, first_valid) at h) in
          (k, ground (arith, m), v)
      | inl (some u, e) ↦
          let h1 : ok u ≡ ok t = rw (e, first_valid) at h in
          (token, ground (arith, ==_iff token token), e ∙ ap (λ x. ok (some x)) (ok-injective h1))
    ]

get_access_token-presented :
    (svc : Services) (providers : List Provider) (conn : Conn) (t : AccessToken)
    → get_access_token svc providers conn ≡ ok (some t)
    → first_valid svc providers (extract_credential_candidates conn) ≡ ok t
unfolding get_access_token
get_access_token-presented svc providers conn t h =
    elim (Bool-cases (is_empty (extract_credential_candidates conn))) [
      | inl e ↦ absurd (ground (arith, e))
      | inr e ↦
          let (u, e1, h1) =
            >>=-eq-ok (first_valid svc providers (extract_credential_candidates conn)) _
              (rw (e, get_access_token) at h) in
          e1 ∙ ap ok (some-eq_lem (ok-injective h1))
    ]

-- A caller is who the first provider that knows a presented credential says it is; and if the
-- verified caller has an owner, that provider is one that mints keys: no other provider can claim
-- an owner for a caller.
pub caller_is_vouched_for :
    (svc : Services) (providers : List Provider) (conn : Conn) (t : AccessToken)
    → get_access_token svc providers conn ≡ ok (some t)
    → (token : Text) × (elem token (extract_credential_candidates conn) ≡ true)
      × (known : FirstToKnow svc providers token t) × ((is_null (get t.claims svc.owner_claim)
            ≡ true)
          ⊎ (known.provider.mints_keys ≡ true))
caller_is_vouched_for svc providers conn t h =
    let (token, presented, e) =
      first_valid-candidate svc providers (extract_credential_candidates conn) t
        (get_access_token-presented svc providers conn t h) in
    let known = verify_token-FirstToKnow svc providers token t e in
    (
      token,
      presented,
      known,
      elim (Bool-cases (is_null (get t.claims svc.owner_claim))) [
        | inl free ↦ inl free
        | inr owned ↦ inr (
            strip_owner-mints svc known.provider.mints_keys known.vouched.identity.claims
              (subst (λ c. is_null (get c svc.owner_claim) ≡ false) known.vouched.carried owned))
      ],
    )
