-- ===== src/App/RouteRegistry/Audit.antt =====
-- The audit of the action-classes and what registration has admitted.
use tai_skeleton.Base.{
  true, false, ◌≡◌, inl, inr, refl, List, [], ◌∷◌, Text, arith, All, any, is_empty, Bool-cases, ok,
}
use tai_skeleton.App.RouteRegistry.{
  RouteAction, read, write, fenced, secret, is_fenced, is_action, RouteMetadata, any_write,
  derive_route_action, has_violation, check_route_actions,
}
use tai_skeleton.App.RouteRegistry.Actions.{Derives, IsClassified}

any_write-write :
    (m : Text) (ms : List Text) → Derives write (m ∷ ms) → any_write (m ∷ ms) ≡ ok true
unfolding any_write is_action
any_write-write m ms (e, es) = rw e refl

any_write-read : (ms : List Text) → Derives read ms → any_write ms ≡ ok false
unfolding any_write is_action
any_write-read [] d = refl
any_write-read (m ∷ ms) (e, es) = rw e (any_write-read ms es)

derive-Derives :
    (a : RouteAction) (ms : List Text)
    → is_fenced a ≡ false
    → is_empty ms ≡ false
    → Derives a ms
    → derive_route_action ms ≡ ok a
unfolding derive_route_action
derive-Derives a [] g n d = absurd (ground arith)
derive-Derives read (m ∷ ms) g n d = rw (any_write-read (m ∷ ms) d) refl
derive-Derives write (m ∷ ms) g n d = rw (any_write-write m ms d) refl
derive-Derives fenced (m ∷ ms) g n d = absurd (ground arith)
derive-Derives secret (m ∷ ms) g n d = absurd (ground arith)

is_action_refl : (a : RouteAction) → is_action a a ≡ true
unfolding is_action
is_action_refl read = refl
is_action_refl write = refl
is_action_refl fenced = refl
is_action_refl secret = refl

IsClassified-has_violation :
    (r : RouteMetadata) → is_empty r.methods ≡ false → IsClassified r → has_violation r ≡ false
unfolding has_violation
IsClassified-has_violation r n c = elim c.class_is_derived [
  | inl public ↦ ground (arith, public)
  | inr (inl f) ↦ ground (arith, f)
  | inr (inr d) ↦ elim (Bool-cases (is_fenced r.action)) [
    | inl f ↦ ground (arith, f)
    | inr g ↦
        let e = derive-Derives r.action r.methods g n d in
        ground (arith, e, is_action_refl r.action)
  ]
]

-- a classified route with at least one method
abbrev pub IsServed : RouteMetadata → Type 0
IsServed r = (is_empty r.methods ≡ false) × IsClassified r

-- The boot audit of the action-classes passes on routes that registration has classified, if each
-- has at least one method.
check_route_actions-IsServed :
    (metas : List RouteMetadata) → All IsServed metas → check_route_actions metas ≡ ok tt
unfolding check_route_actions any
check_route_actions-IsServed [] h = refl
check_route_actions-IsServed (m ∷ ms) ((n, c), hs) =
    let rest : check_route_actions ms ≡ ok tt = check_route_actions-IsServed ms hs in
    ground (arith, IsClassified-has_violation m n c)
