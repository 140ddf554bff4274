-- ===== src/Versioning/Store/Rows.antt =====
-- The statements on the rows of the two tables.
use tai_skeleton.Base.{
  ℕ, ◌<◌, Bool, true, false, ◌&&◌, ◌||◌, not, ◌≡◌, inl, inr, refl, Option, none, some, List, [],
  ◌∷◌, ◌++◌, arith, ◌==◌, nat_eq, string_eq, ltb, any, all, keep, Option-cases,
}
use tai_skeleton.Versioning.Tables.{
  Document, VersionRow, is_live, is_version, first, max_version, update_documents,
}

abbrev pub is_some {ℓ} : {A : Type ℓ} → Option A → Bool
is_some none = false
is_some (some a) = true

-- no two documents have one id
unfoldable pub distinct_ids : List Document → Bool
unfolding any
distinct_ids [] = true
distinct_ids (d ∷ ds) = not (any (λ e. e.id == d.id) ds) && distinct_ids ds

-- one live document for a kind and a name
unfoldable pub live_once : List Document → Bool
unfolding any
live_once [] = true
live_once (d ∷ ds) = not (d.is_active && any (is_live d.kind d.name) ds) && live_once ds

module _ {ℓ} {A : Type ℓ} (p : A → Bool) where
  pub any-append : (xs ys : List A) → any p (xs ++ ys) ≡ (any p xs || any p ys)
  unfolding any
  any-append [] ys = refl
  any-append (x ∷ xs) ys = ground (arith, any-append xs ys)

  pub all-append : (xs ys : List A) → all p (xs ++ ys) ≡ (all p xs && all p ys)
  unfolding all
  all-append [] ys = refl
  all-append (x ∷ xs) ys = ground (arith, all-append xs ys)

  pub first-append :
      (xs ys : List A)
      → first p (xs ++ ys) ≡ elim (first p xs) [ none ↦ first p ys | some x ↦ some x ]
  unfolding first
  first-append [] ys = refl
  first-append (x ∷ xs) ys = ground (arith, first-append xs ys)

  pub first-holds : (xs : List A) (x : A) → first p xs ≡ some x → p x ≡ true
  unfolding first
  first-holds [] x h = cc
  first-holds (y ∷ ys) x h = ground (arith, first-holds ys x)

  pub is_some-first : (xs : List A) → is_some (first p xs) ≡ any p xs
  unfolding first any
  is_some-first [] = refl
  is_some-first (x ∷ xs) = ground (arith, is_some-first xs)

  -- what holds of all rows holds of the one that is found
  pub all-first :
      (q : A → Bool) (xs : List A) (x : A) → all q xs ≡ true → first p xs ≡ some x → q x ≡ true
  unfolding first all
  all-first q [] x h k = cc
  all-first q (y ∷ ys) x h k = ground (arith, all-first q ys x)

  pub all-keep : (q : A → Bool) (xs : List A) → all q xs ≡ true → all q (keep p xs) ≡ true
  unfolding keep all
  all-keep q [] h = refl
  all-keep q (x ∷ xs) h = ground (arith, h, all-keep q xs)

pub all_imp {ℓ} :
    {A : Type ℓ} (p q : A → Bool) (xs : List A)
    → ((x : A) → p x ≡ true → q x ≡ true)
    → all p xs ≡ true
    → all q xs ≡ true
unfolding all
all_imp p q [] h k = refl
all_imp p q (x ∷ xs) h k = ground (arith, k, h x, all_imp p q xs h)

-- an update that keeps the ids
module _ (p : Document → Bool) (f : Document → Document)
    (id_kept : (d : Document) → (f d).id ≡ d.id) where
  any_id-update :
      (i : ℕ) (ds : List Document)
      → any (λ e. e.id == i) (update_documents p f ds) ≡ any (λ e. e.id == i) ds
  unfolding any update_documents
  any_id-update i [] = refl
  any_id-update i (d ∷ ds) = ground (arith, id_kept d, any_id-update i ds)

  pub distinct_ids-update :
      (ds : List Document) → distinct_ids (update_documents p f ds) ≡ distinct_ids ds
  unfolding distinct_ids update_documents
  distinct_ids-update [] = refl
  distinct_ids-update (d ∷ ds) =
      ground (arith, id_kept d, any_id-update d.id ds, distinct_ids-update ds)

  pub all_below-update :
      (n : ℕ) (ds : List Document)
      → all (λ (d : Document). ltb d.id n) (update_documents p f ds)
        ≡ all (λ (d : Document). ltb d.id n) ds
  unfolding all update_documents
  all_below-update n [] = refl
  all_below-update n (d ∷ ds) = ground (arith, id_kept d, all_below-update n ds)

any_id-keep :
    (p : Document → Bool) (i : ℕ) (ds : List Document)
    → any (λ (e : Document). e.id == i) ds ≡ false
    → any (λ (e : Document). e.id == i) (keep p ds) ≡ false
unfolding any keep
any_id-keep p i [] h = refl
any_id-keep p i (d ∷ ds) h = ground (arith, h, any_id-keep p i ds)

pub distinct_ids-keep :
    (p : Document → Bool) (ds : List Document)
    → distinct_ids ds ≡ true
    → distinct_ids (keep p ds) ≡ true
unfolding distinct_ids keep
distinct_ids-keep p [] h = refl
distinct_ids-keep p (d ∷ ds) h = ground (arith, h, any_id-keep p d.id ds, distinct_ids-keep p ds)

-- a new document
pub distinct_ids-append :
    (ds : List Document) (d : Document)
    → distinct_ids ds ≡ true
    → all (λ (e : Document). ltb e.id d.id) ds ≡ true
    → distinct_ids (ds ++ d ∷ []) ≡ true
unfolding distinct_ids all any
distinct_ids-append [] d h k = refl
distinct_ids-append (e ∷ ds) d h k =
    ground (
      arith,
      h,
      k,
      any-append (λ (x : Document). x.id == e.id) ds (d ∷ []),
      distinct_ids-append ds d,
    )

pub max_version-none :
    (id v : ℕ) (rs : List VersionRow) → max_version id rs ≡ none → any (is_version id v) rs ≡ false
unfolding max_version any
max_version-none id v [] h = refl
max_version-none id v (r ∷ rs) h = elim (Option-cases (max_version id rs)) [
  | inl e ↦ ground (arith, h, e, max_version-none id v rs e)
  | inr (m, e) ↦ ground (arith, h, e)
]

-- the version numbers of a document are at most the largest
pub max_version-bounds :
    (id v latest : ℕ) (rs : List VersionRow)
    → max_version id rs ≡ some latest
    → latest < v
    → any (is_version id v) rs ≡ false
unfolding max_version any
max_version-bounds id v latest [] h k = refl
max_version-bounds id v latest (r ∷ rs) h k = elim (Option-cases (max_version id rs)) [
  | inl e ↦ ground (arith, h, k, e, max_version-none id v rs e)
  | inr (m, e) ↦ ground (arith, h, k, e, max_version-bounds id v m rs e)
]
