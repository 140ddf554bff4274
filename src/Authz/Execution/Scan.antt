-- ===== src/Authz/Execution/Scan.antt =====
-- One verdict for each key of a batch.
use tai_skeleton.Base.{
  sym, subst, List, [], ◌∷◌, Bool, true, false, not, ◌≡◌, inl, inr, refl, ap, ◌∙◌, Option, none,
  some, String, arith, ◌==◌, ==_iff, string_eq, pair_eq, lookup, lookup-insert, Bool-cases,
  Option-cases, Exc, Result, ok, raise, if◌then◌else◌,
}
use tai_skeleton.AccessControl.Policy.{Services}
use tai_skeleton.AccessControl.Verifier.{Site}
use tai_skeleton.Authz.Execution.{
  Verdicts, is_refusal, recorded, keep_verdict, read_usable, assert_usable,
}

-- an outcome that is a verdict on the key, and no fault of the infrastructure
abbrev pub is_verdict : Result (Unit {0}) → Bool
is_verdict (ok u) = true
is_verdict (raise e) = is_refusal e

-- the verdict that an outcome is kept as
abbrev verdict_of : Result (Unit {0}) → Option Exc
verdict_of (ok u) = none
verdict_of (raise e) = some e

recorded-verdict_of : (r : Result (Unit {0})) → recorded (verdict_of r) ≡ r
recorded-verdict_of (ok u) = refl
recorded-verdict_of (raise e) = refl

lookup-keep_verdict :
    (key : String × String) (r : Result (Unit {0})) (verdicts : Verdicts)
    → is_verdict r ≡ true
    → lookup key (keep_verdict key r verdicts) ≡ some (verdict_of r)
lookup-keep_verdict key (ok u) verdicts h =
    lookup-insert key key none verdicts ∙ (ground (arith, ==_iff key key))
lookup-keep_verdict key (raise e) verdicts h =
    rw h (lookup-insert key key (some e) verdicts ∙ (ground (arith, ==_iff key key)))

when_on {ℓ} : {A : Type ℓ} (b : Bool) (x y : A) → b ≡ true → (if not b then x else y) ≡ y
when_on b x y h = rw h refl

assert_usable-found :
    (svc : Services) (site : Site) (verdicts : Verdicts) (key bound : String) (v : Option Exc)
    → site.settings.enable ≡ true
    → lookup (key, bound) verdicts ≡ some v
    → assert_usable svc site verdicts key bound ≡ (recorded v, verdicts)
unfolding assert_usable
assert_usable-found svc site verdicts key bound v on found =
    when_on site.settings.enable (ok tt, verdicts) _ on ∙ (rw found refl)

assert_usable-fresh :
    (svc : Services) (site : Site) (verdicts : Verdicts) (key bound : String)
    → site.settings.enable ≡ true
    → lookup (key, bound) verdicts ≡ none
    → assert_usable svc site verdicts key bound ≡ (
      read_usable svc site key bound,
      keep_verdict (key, bound) (read_usable svc site key bound) verdicts,
    )
unfolding assert_usable
assert_usable-fresh svc site verdicts key bound on fresh =
    when_on site.settings.enable (ok tt, verdicts) _ on ∙ (rw fresh refl)

keep_verdict-other :
    (key other : String × String) (r : Result (Unit {0})) (verdicts : Verdicts)
    → key == other ≡ false
    → lookup other (keep_verdict key r verdicts) ≡ lookup other verdicts
keep_verdict-other key other (ok u) verdicts h =
    lookup-insert key other none verdicts ∙ (ground (arith, h))
keep_verdict-other key other (raise e) verdicts h = elim (Bool-cases (is_refusal e)) [
  | inl f ↦ rw f (lookup-insert key other (some e) verdicts ∙ (ground (arith, h)))
  | inr f ↦ rw f refl
]

-- the verdicts on the other keys of a batch stay as they are
pub assert_usable_others :
    (svc : Services) (site : Site) (verdicts : Verdicts) (key bound : String)
    (other : String × String)
    → (key, bound) == other ≡ false
    → lookup other (assert_usable svc site verdicts key bound).1 ≡ lookup other verdicts
unfolding assert_usable
assert_usable_others svc site verdicts key bound other h = elim (Bool-cases site.settings.enable) [
  | inr off ↦ rw (off, assert_usable) refl
  | inl on ↦ elim (Option-cases (lookup (key, bound) verdicts)) [
    | inr (v, found) ↦ rw (on, assert_usable) (rw (found, assert_usable) refl)
    | inl fresh ↦
        rw (on, assert_usable)
          (rw (fresh, assert_usable)
            (keep_verdict-other (key, bound) other (read_usable svc site key bound) verdicts h))
  ]
]

-- A record of a batch, with the store as it is when the record is asked about.
pub record Asked : Type 1 where
  pub services : Services
  pub key : String
  pub bound : String

-- the verdicts after the records of a batch, in order
unfoldable pub scan : Site → List Asked → Verdicts → Verdicts
unfolding assert_usable
scan site [] verdicts = verdicts
scan site (r ∷ rs) verdicts = scan site rs (assert_usable r.services site verdicts r.key r.bound).1

-- a verdict stays through the next record
verdict-assert_usable :
    (svc : Services) (site : Site) (verdicts : Verdicts) (key bound : String)
    (asked : String × String) (v : Option Exc)
    → site.settings.enable ≡ true
    → lookup asked verdicts ≡ some v
    → lookup asked (assert_usable svc site verdicts key bound).1 ≡ some v
verdict-assert_usable svc site verdicts key bound asked v on found =
    elim (Bool-cases ((key, bound) == asked)) [
      | inl e ↦
          let same : asked ≡ (key, bound) = sym ((==_iff (key, bound) asked).0 e) in
          let own : lookup (key, bound) verdicts ≡ some v =
            subst (λ k. lookup k verdicts ≡ some v) same found in
          ap (λ (x : _ × Verdicts). lookup asked x.1)
            (assert_usable-found svc site verdicts key bound v on own)
          ∙ found
      | inr e ↦ assert_usable_others svc site verdicts key bound asked e ∙ found
    ]

verdict-scan :
    (site : Site) (rs : List Asked) (verdicts : Verdicts) (asked : String × String) (v : Option Exc)
    → site.settings.enable ≡ true
    → lookup asked verdicts ≡ some v
    → lookup asked (scan site rs verdicts) ≡ some v
unfolding scan
verdict-scan site [] verdicts asked v on found = found
verdict-scan site (r ∷ rs) verdicts asked v on found =
    verdict-scan site rs (assert_usable r.services site verdicts r.key r.bound).1 asked v on
      (verdict-assert_usable r.services site verdicts r.key r.bound asked v on found)

-- an answer that is a verdict is kept as that verdict
verdict-reached :
    (svc : Services) (site : Site) (verdicts : Verdicts) (key bound : String)
    → site.settings.enable ≡ true
    → is_verdict (assert_usable svc site verdicts key bound).0 ≡ true
    → (v : Option Exc) × (lookup (key, bound) (assert_usable svc site verdicts key bound).1
        ≡ some v)
      × (recorded v ≡ (assert_usable svc site verdicts key bound).0)
verdict-reached svc site verdicts key bound on h =
    elim (Option-cases (lookup (key, bound) verdicts)) [
      | inr (v, found) ↦
          let first = assert_usable-found svc site verdicts key bound v on found in
          rw first (v, found, refl)
      | inl fresh ↦
          let r = read_usable svc site key bound in
          let first = assert_usable-fresh svc site verdicts key bound on fresh in
          let reached : is_verdict r ≡ true = rw first at h in
          rw first (
            verdict_of r,
            lookup-keep_verdict (key, bound) r verdicts reached,
            recorded-verdict_of r,
          )
    ]

-- With access control on, the verdict that a batch has reached on a key and fingerprint is the answer for
-- every later record of the batch that names them, whatever records come between, and whatever the store
-- says by then.
pub assert_usable_again :
    (svc later : Services) (site : Site) (verdicts : Verdicts) (key bound : String)
    (between : List Asked)
    → site.settings.enable ≡ true
    → is_verdict (assert_usable svc site verdicts key bound).0 ≡ true
    → (assert_usable later site
        (scan site between (assert_usable svc site verdicts key bound).1)
        key
        bound).0
      ≡ (assert_usable svc site verdicts key bound).0
assert_usable_again svc later site verdicts key bound between on h =
    let (v, found, answer) = verdict-reached svc site verdicts key bound on h in
    let kept =
      verdict-scan site between (assert_usable svc site verdicts key bound).1 (key, bound) v on
        found in
    ap (λ (x : Result (Unit {0}) × Verdicts). x.0)
      (assert_usable-found later site
        (scan site between (assert_usable svc site verdicts key bound).1) key bound v on kept)
    ∙ answer
