-- ===== src/Versioning/Store/Lookups.antt =====
-- What is found after an update.
use tai_skeleton.Base.{
  Bool, true, false, ◌≡◌, inl, inr, refl, ap, ◌∙◌, none, some, List, [], ◌∷◌, arith, ◌==◌, ==_iff,
  nat_eq, string_eq, any, if◌then◌else◌, Bool-cases,
}
use tai_skeleton.Versioning.Tables.{Document, first, update_documents}
use tai_skeleton.Versioning.Store.Rows.{distinct_ids}

-- the row that an update leaves in the place of a row
abbrev pub updated : (Document → Bool) → (Document → Document) → Document → Document
updated p f d = if p d then f d else d

updated_kept :
    (q p : Document → Bool) (f : Document → Document) (d : Document)
    → q (f d) ≡ q d
    → q (updated p f d) ≡ q d
updated_kept q p f d h = elim (Bool-cases (p d)) [ inl e ↦ rw e h | inr e ↦ rw e refl ]

-- what is found by a test that an update does not change
pub first-update :
    (q p : Document → Bool) (f : Document → Document) (ds : List Document)
    → ((d : Document) → q (f d) ≡ q d)
    → first q (update_documents p f ds)
      ≡ elim (first q ds) [ none ↦ none | some d ↦ some (updated p f d) ]
unfolding first update_documents
first-update q p f [] kept = refl
first-update q p f (d ∷ ds) kept =
    let k = updated_kept q p f d (kept d) in
    elim (Bool-cases (q d)) [
      | inl e ↦ rw (k ∙ e, e) refl
      | inr e ↦ rw (k ∙ e, e) (first-update q p f ds kept)
    ]

pub first-update_some :
    (q p : Document → Bool) (f : Document → Document) (ds : List Document) (d : Document)
    → ((d : Document) → q (f d) ≡ q d)
    → first q ds ≡ some d
    → first q (update_documents p f ds) ≡ some (updated p f d)
first-update_some q p f ds d kept h = rw h at (first-update q p f ds kept)

pub any-first :
    (q p : Document → Bool) (ds : List Document) (d : Document)
    → any q ds ≡ false
    → first p ds ≡ some d
    → q d ≡ false
unfolding any first
any-first q p [] d h k = cc
any-first q p (e ∷ ds) d h k = ground (arith, h, any-first q p ds d)

-- the document that has the id of one that is found
pub first_by_id :
    (p : Document → Bool) (ds : List Document) (d : Document)
    → distinct_ids ds ≡ true
    → first p ds ≡ some d
    → first (λ e. e.id == d.id) ds ≡ some d
unfolding first distinct_ids
first_by_id p [] d h k = cc
first_by_id p (e ∷ ds) d h k = elim (Bool-cases (p e)) [
  | inl m ↦
      let same : e ≡ d = let g : some e ≡ some d = rw m at k in cc in
      let i : e.id == d.id ≡ true = (==_iff e.id d.id).1 (ap (λ (x : Document). x.id) same) in
      rw i (ap some same)
  | inr m ↦
      let found : first p ds ≡ some d = rw m at k in
      let differs : d.id == e.id ≡ false =
        any-first (λ x. x.id == e.id) p ds d (ground (arith, h)) found in
      let differs' : e.id == d.id ≡ false = ground (arith, differs) in
      rw differs' (first_by_id p ds d (ground (arith, h)) found)
]
