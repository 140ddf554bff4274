-- ===== src/App/RouteRegistry/Actions.antt =====
-- The action-classes that registration admits.
use tai_skeleton.Base.{
  Bool, true, false, not, ◌≡◌, refl, ap, sym, subst, ◌≢◌, ok-injective, Option, none, some, List,
  [], ◌∷◌, map, String, Text, arith, All, is_empty, insert, ◌==◌, nat_eq, list_eq, pair_eq, sort,
  upper, text_lt, ok, value_error, raise_if, >>=-eq-ok, raise_if-eq-ok, Bool-cases, ◌⊎◌, inl, inr,
  ◌∙◌,
}
use tai_skeleton.App.RouteRegistry.{
  RouteAction, read, is_fenced, is_action, RouteMetadata, RouteKey, Routes, method_to_action,
  derive_route_action, check_methods, resolve_route_action, record_route,
}

pub is_action_sound : (a b : RouteAction) → is_action a b ≡ true → a ≡ b
unfolding is_action
is_action_sound read read h = refl
is_action_sound _ _ h = ground arith

-- Every method of a route derives the route's class.
abbrev pub Derives : RouteAction → List Text → Type 0
Derives action methods = All (λ m. method_to_action m ≡ ok action) methods

check_methods-Derives :
    (action : RouteAction) (methods : List Text) {u : Unit {0}}
    → check_methods action methods ≡ ok u
    → Derives action methods
unfolding check_methods
check_methods-Derives action [] h = tt
check_methods-Derives action (m ∷ ms) h =
    let (a, ea, h1) = >>=-eq-ok (method_to_action m) _ h in
    let (_, er, h2) = >>=-eq-ok (raise_if (not (is_action a action)) value_error) _ h1 in
    let same =
      is_action_sound a action
        (ground (arith, raise_if-eq-ok (not (is_action a action)) value_error er)) in
    (cc, check_methods-Derives action ms h2)

-- A route that is registered as the classes demand.
pub record IsClassified (r : RouteMetadata) : Type 0 where
  pub fence_is_authed : (is_fenced r.action ≡ false) ⊎ (r.authed ≡ true)
  pub class_is_derived :
      (r.authed ≡ false) ⊎ ((is_fenced r.action ≡ true) ⊎ Derives r.action r.methods)

abbrev pub AllClassified : Routes → Type 0
AllClassified routes = All (λ r. IsClassified r.1) routes

resolve_route_action-declared :
    (d : Option RouteAction) (methods : List Text) (a : RouteAction)
    → resolve_route_action d methods true ≡ ok a
    → d ≡ some a
unfolding resolve_route_action
resolve_route_action-declared none methods a h = ground arith
resolve_route_action-declared (some d) methods a h = ground arith

declared_fence :
    (d : RouteAction) (methods : List Text) (authed : Bool) (a : RouteAction)
    → is_fenced d ≡ true
    → resolve_route_action (some d) methods authed ≡ ok a
    → (a ≡ d) × (authed ≡ true)
unfolding resolve_route_action
declared_fence d methods authed a f h = ground arith

declared_grantable :
    (d : RouteAction) (methods : List Text) (authed : Bool) (a : RouteAction)
    → is_fenced d ≡ false
    → resolve_route_action (some d) methods authed ≡ ok a
    → (a ≡ d) × Derives d methods
unfolding resolve_route_action
declared_grantable d methods authed a f h =
    let (_, _, h1) = >>=-eq-ok (derive_route_action methods) _ (rw f at h) in
    let (_, ec, h2) = >>=-eq-ok (check_methods d methods) _ h1 in
    (ground arith, check_methods-Derives d methods ec)

derived_grantable :
    (methods : List Text) (a : RouteAction)
    → derive_route_action methods ≡ ok a
    → is_fenced a ≡ false
unfolding derive_route_action
derived_grantable methods a h = ground arith

undeclared :
    (methods : List Text) (authed : Bool) (a : RouteAction)
    → resolve_route_action none methods authed ≡ ok a
    → (authed ≡ false) × (derive_route_action methods ≡ ok a)
unfolding resolve_route_action
undeclared methods authed a h = ground arith

-- What the admitted class says, whatever was declared.
pub resolve_route_action-IsClassified :
    (d : Option RouteAction) (path : Text) (methods : List Text) (tags : List String)
    (authed : Bool) (a : RouteAction)
    → resolve_route_action d methods authed ≡ ok a
    → IsClassified
        (record { path = path; methods = methods; tags = tags; authed = authed; action = a })
resolve_route_action-IsClassified none path methods tags authed a h =
    let (e, ea) = undeclared methods authed a h in
    let g = derived_grantable methods a ea in
    record { fence_is_authed = inl g; class_is_derived = inl e }
resolve_route_action-IsClassified (some d) path methods tags authed a h =
    elim (Bool-cases (is_fenced d)) [
      | inl f ↦
          let (e, t) = declared_fence d methods authed a f h in
          record { fence_is_authed = inr t; class_is_derived = inr (inl (ap is_fenced e ∙ f)) }
      | inr f ↦
          let (e, der) = declared_grantable d methods authed a f h in
          record {
            fence_is_authed = inl (ap is_fenced e ∙ f);
            class_is_derived = inr (inr (subst (λ x. Derives x methods) (sym e) der));
          }
    ]

insert-AllClassified :
    (k : RouteKey) (r : RouteMetadata) (routes : Routes)
    → IsClassified r
    → AllClassified routes
    → AllClassified (insert k r routes)
unfolding insert
insert-AllClassified k r [] h hs = (h, tt)
insert-AllClassified k r ((j, q) ∷ routes) h (c, hs) = elim (Bool-cases (k == j)) [
  | inl e ↦ rw e (h, hs)
  | inr e ↦ rw e (c, insert-AllClassified k r routes h hs)
]

-- Registration keeps every recorded route classified: a fenced or secret route is an authed one,
-- and on an authed route of class read or write every method derives exactly that class.
pub record_route-IsClassified :
    (routes routes' : Routes) (path : Text) (methods : List Text) (summary : Text)
    (tags : List String) (authed : Bool) (action : Option RouteAction)
    → AllClassified routes
    → record_route routes path methods summary tags authed action ≡ ok routes'
    → AllClassified routes'
unfolding record_route
record_route-IsClassified routes routes' path methods summary tags authed action hs h =
    let (_, _, h1) = >>=-eq-ok (raise_if (is_empty summary) value_error) _ h in
    let (_, _, h2) = >>=-eq-ok (raise_if (is_empty tags) value_error) _ h1 in
    let key = sort text_lt (map upper methods) in
    let (a, ea, h3) = >>=-eq-ok (resolve_route_action action key authed) _ h2 in
    subst AllClassified (ok-injective h3) (
      insert-AllClassified (path, key) _ routes
        (resolve_route_action-IsClassified action path key tags authed a ea) hs)

-- An authed route that declares no class is never recorded.
pub record_route-undeclared :
    (routes routes' : Routes) (path : Text) (methods : List Text) (summary : Text)
    (tags : List String) (action : Option RouteAction)
    → record_route routes path methods summary tags true action ≡ ok routes'
    → action ≢ none
unfolding record_route
record_route-undeclared routes routes' path methods summary tags action h e =
    let (_, _, h1) = >>=-eq-ok (raise_if (is_empty summary) value_error) _ h in
    let (_, _, h2) = >>=-eq-ok (raise_if (is_empty tags) value_error) _ h1 in
    let key = sort text_lt (map upper methods) in
    let (a, ea, h3) = >>=-eq-ok (resolve_route_action action key true) _ h2 in
    cc (resolve_route_action-declared action key a ea)
