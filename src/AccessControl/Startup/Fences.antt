-- ===== src/AccessControl/Startup/Fences.antt =====
-- The fences that a passed audit guarantees.
use mathlib.Core.List.{Memᴰ}
use tai_skeleton.Base.{
  Bool, true, false, not, ◌&&◌, ◌≡◌, inl, inr, refl, ap, sym, subst, ◌∙◌, Option, none, some, List,
  [], ◌∷◌, Text, arith, ◌==◌, ==_iff, nat_eq, string_eq, list_eq, elem, any, Bool-cases, ok,
  runtime_error, >>=-eq-ok, raise_if-eq-ok, ok-injective,
}
use tai_skeleton.App.RouteRegistry.{RouteMetadata, is_fenced}
use tai_skeleton.App.RouteRegistry.Actions.{is_action_sound}
use tai_skeleton.AccessControl.RoleGate.{RouteIndex, resolve_route_meta, build_index}
use tai_skeleton.AccessControl.Policy.{Services}
use tai_skeleton.AccessControl.Verifier.{Site}
use tai_skeleton.AccessControl.Backend.{Conn, Provider, TaiUser}
use tai_skeleton.AccessControl.Guard.{run_app, http_edge}
use tai_skeleton.AccessControl.Guard.Doors.{fenced_route_admin_only}
use tai_skeleton.AccessControl.Startup.{
  same_flag, same_meta, is_this, resolves_back, check_fenced_routes_resolvable,
}

same_flag_sound : (a b : Bool) → same_flag a b ≡ true → a ≡ b
same_flag_sound true true h = refl
same_flag_sound true false h = sym h
same_flag_sound false true h = h
same_flag_sound false false h = refl

same_meta_sound : (a b : RouteMetadata) → same_meta a b ≡ true → a ≡ b
unfolding same_meta
same_meta_sound a b h =
    let p : a.path ≡ b.path = ground (arith, ==_iff a.path b.path) in
    let m : a.methods ≡ b.methods = ground (arith, ==_iff a.methods b.methods) in
    let t : a.tags ≡ b.tags = ground (arith, ==_iff a.tags b.tags) in
    let f : a.authed ≡ b.authed = same_flag_sound a.authed b.authed (ground arith) in
    let c : a.action ≡ b.action = is_action_sound a.action b.action (ground arith) in cc

is_this_sound : (m : RouteMetadata) (o : Option RouteMetadata) → is_this m o ≡ true → o ≡ some m
is_this_sound m none h = absurd (ground arith)
is_this_sound m (some found) h = ap some (same_meta_sound found m h)

any-elem :
    (f : Text → Bool) (x : Text) (xs : List Text)
    → any f xs ≡ false
    → elem x xs ≡ true
    → f x ≡ false
unfolding any elem
any-elem f x [] h k = absurd (ground arith)
any-elem f x (y ∷ ys) h k = elim (Bool-cases (x == y)) [
  | inl e ↦ subst (λ z. f z ≡ false) (sym ((==_iff x y).0 e)) (ground arith)
  | inr e ↦ any-elem f x ys (ground arith) (ground (arith, e))
]

any-Mem :
    (f : RouteMetadata → Bool) (x : RouteMetadata) (xs : List RouteMetadata)
    → any f xs ≡ false
    → Memᴰ x xs
    → f x ≡ false
unfolding any
any-Mem f x [] h i = elim i [ ]
any-Mem f x (y ∷ ys) h (Memᴰ.head e) = subst (λ z. f z ≡ false) (sym e) (ground arith)
any-Mem f x (y ∷ ys) h (Memᴰ.tail i) = any-Mem f x ys (ground arith) i

resolves_back-resolve :
    (index : RouteIndex) (m : RouteMetadata) (method : Text)
    → resolves_back index m ≡ true
    → elem method m.methods ≡ true
    → resolve_route_meta index m.path (some method) ≡ some m
unfolding resolves_back
resolves_back-resolve index m method h k =
    is_this_sound m (resolve_route_meta index m.path (some method)) (
      ground (
        arith,
        any-elem (λ n. not (is_this m (resolve_route_meta index m.path (some n)))) method m.methods,
      ))

-- After a passed audit every registered fenced or secret route resolves to itself, for each of its
-- methods, in the index that the gate reads.
pub fenced_route_resolves :
    (routes : List RouteMetadata) (index : RouteIndex) (m : RouteMetadata) (method : Text)
    → build_index routes ≡ ok index
    → check_fenced_routes_resolvable routes ≡ ok tt
    → Memᴰ m routes
    → is_fenced m.action ≡ true
    → elem method m.methods ≡ true
    → resolve_route_meta index m.path (some method) ≡ some m
unfolding check_fenced_routes_resolvable
fenced_route_resolves routes index m method built audited listed fence served =
    let (other, e, h) = >>=-eq-ok (build_index routes) _ audited in
    let same : other ≡ index = ok-injective (sym e ∙ built) in
    let clean =
      raise_if-eq-ok (any (λ n. is_fenced n.action && not (resolves_back other n)) routes)
        runtime_error h in
    let back : resolves_back other m ≡ true = ground (
      arith,
      any-Mem (λ n. is_fenced n.action && not (resolves_back other n)) m routes clean listed,
    ) in
    subst (λ i. resolve_route_meta i m.path (some method) ≡ some m) same
      (resolves_back-resolve other m method back served)

-- After a passed audit, a caller that reaches the application at the registered path of a fenced or
-- secret route, with one of its methods, is an admin by its own policy.
pub audited_fence_admin_only :
    (routes : List RouteMetadata) (svc : Services) (site : Site) (providers : List Provider)
    (conn : Conn) (u : TaiUser) (m : RouteMetadata) (method : Text)
    → build_index routes ≡ ok site.index
    → check_fenced_routes_resolvable routes ≡ ok tt
    → Memᴰ m routes
    → is_fenced m.action ≡ true
    → elem method m.methods ≡ true
    → conn.path ≡ m.path
    → conn.method ≡ some method
    → http_edge svc site providers conn ≡ run_app (some u)
    → u.is_admin ≡ true
audited_fence_admin_only routes svc site providers conn u m method built audited listed fence served
      ep em h =
    let back = fenced_route_resolves routes site.index m method built audited listed fence served in
    fenced_route_admin_only svc site providers conn u method m em
      (subst (λ p. resolve_route_meta site.index p (some method) ≡ some m) (sym ep) back) fence h
