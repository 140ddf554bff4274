-- ===== src/AccessControl/Policy/Scopes.antt =====
-- What scopes permit, and what owning takes away.
use mathlib.Core.Path.{ap₂}
use tai_skeleton.Base.{
  sym, ◌∙◌, Bool, ◌&&◌, ◌||◌, ◌≡◌, refl, List, [], ◌∷◌, String, arith, string_eq, elem, all,
  elem-keep,
}
use tai_skeleton.AccessControl.Policy.{effective_scopes}

-- The scope test of both edges: everything by "*", else each protected resource by name.
unfoldable pub permits : List String → List String → Bool
permits scopes protected_ids = elem "*" scopes || all (λ rid. elem rid scopes) protected_ids

unfoldable pub permits_one : List String → String → Bool
permits_one scopes rid = elem "*" scopes || elem rid scopes

permits_one-effective_scopes :
    (key owner : List String) (rid : String)
    → permits_one (effective_scopes key owner) rid ≡ (permits_one key rid && permits_one owner rid)
unfolding permits_one effective_scopes
permits_one-effective_scopes key owner rid =
    ground (arith, elem-keep (λ s. elem s owner) rid key, elem-keep (λ s. elem s owner) "*" key)

permits-eq-all : (scopes ids : List String) → permits scopes ids ≡ all (permits_one scopes) ids
unfolding permits permits_one all
permits-eq-all scopes [] = ground arith
permits-eq-all scopes (rid ∷ ids) = ground (arith, permits-eq-all scopes ids)

all-and :
    (p q r : String → Bool) (ids : List String)
    → ((x : String) → p x ≡ (q x && r x))
    → all p ids ≡ (all q ids && all r ids)
unfolding all
all-and p q r [] h = refl
all-and p q r (x ∷ ids) h = ground (arith, h x, all-and p q r ids h)

-- The scopes of an owned key permit exactly what both the key's own scopes and the owner's
-- current scopes permit, with "*" standing for everything on either side.
pub permits-effective_scopes :
    (key owner ids : List String)
    → permits (effective_scopes key owner) ids ≡ (permits key ids && permits owner ids)
permits-effective_scopes key owner ids =
    permits-eq-all (effective_scopes key owner) ids
    ∙ all-and _ (permits_one key) (permits_one owner) ids (permits_one-effective_scopes key owner)
    ∙ sym (ap₂ ◌&&◌ (permits-eq-all key ids) (permits-eq-all owner ids))
