-- ===== src/Versioning/Store/Audit.antt =====
-- The audit trail: the documents of the kind role_audit, whose rows the triggers guard.
pub mod Writes
use tai_skeleton.Base.{
  ℕ, suc, ◌+◌, ◌≤◌, ◌<◌, Bool, true, false, ◌&&◌, ◌||◌, not, ◌≡◌, ◌≢◌, ◌⊎◌, inl, inr, refl, sym, ap,
  ◌∙◌, subst, Option, none, some, List, [], ◌∷◌, ◌++◌, String, arith, ◌==◌, ==_iff, nat_eq,
  string_eq, ltb, eqb, any, all, keep, if◌then◌else◌, Bool-cases, Option-cases, Exc, Result, ok,
  raise, fault, document_not_found, document_exists, document_version_not_found, ◌>>=◌, >>=-eq-ok,
  raise_if, raise_if-eq-ok, require, require-eq-ok, ok-injective,
}
use tai_skeleton.AccessControl.Policy.{Dict}
use tai_skeleton.Versioning.Tables.{
  Document, VersionRow, Tables, is_live, is_version, first, max_version, update_documents,
  live_document, version_row, guards_update, insert_document, insert_version, set_active_version,
  role_audit,
}
use tai_skeleton.Versioning.Store.{
  retag, create, save_version, set_version_tags, rollback, soft_delete, delete, rename, Write,
  create_write, save_write, tags_write, rollback_write, soft_delete_write, delete_write,
  rename_write, run_write, run_writes, get_active_body, get_version, DocumentVersion, version_of,
}
use tai_skeleton.Versioning.Store.Rows.{
  distinct_ids, live_once, any-append, all-append, first-append, first-holds, is_some-first,
  is_some, all-first, all-keep, all_imp, distinct_ids-update, all_below-update, distinct_ids-keep,
  distinct_ids-append, max_version-bounds,
}
use tai_skeleton.Versioning.Store.Live.{
  live_once-pointer, live_once-deleted, live_once-keep, live_once-append, live_once-renamed,
  any_live-update,
}
use tai_skeleton.Versioning.Store.Lookups.{first-update_some, first_by_id, updated}
use tai_skeleton.Versioning.Store.Sound.{IsSound, run_write-IsSound}

-- The tables hold an entry of the audit trail: the version row of a role_audit document, which has an
-- id, a name and a mark.
pub record HasEntry (id : ℕ) (name : String) (marked : Bool) (r : VersionRow) (t : Tables)
    : Type 0 where
  pub document : Document
  pub found : first (λ (d : Document). d.id == id) t.documents ≡ some document
  pub of_audit : document.kind ≡ role_audit
  pub named : document.name ≡ name
  pub still_marked : document.is_active ≡ marked
  pub row : first (is_version id r.version) t.versions ≡ some r

-- what is found is found among the rows that are kept
first-keep {ℓ} :
    {A : Type ℓ} (q p : A → Bool) (xs : List A) (x : A)
    → first q xs ≡ some x
    → p x ≡ true
    → first q (keep p xs) ≡ some x
unfolding first keep
first-keep q p [] x h k = cc
first-keep q p (y ∷ ys) x h k = elim (Bool-cases (q y)) [
  | inl e ↦
      let same : y ≡ x = let g : some y ≡ some x = rw e at h in cc in
      let kept : p y ≡ true = subst (λ z. p z ≡ true) (sym same) k in rw (kept, e) (ap some same)
  | inr e ↦
      let rest = first-keep q p ys x (rw e at h) k in
      elim (Bool-cases (p y)) [ inl m ↦ rw (m, e) rest | inr m ↦ rw m rest ]
]

first-retag :
    (i v id version : ℕ) (tags : List String) (rs : List VersionRow)
    → id == i ≡ false
    → first (is_version i v) (retag id version tags rs) ≡ first (is_version i v) rs
unfolding first retag
first-retag i v id version tags [] h = refl
first-retag i v id version tags (r ∷ rs) h = ground (
  arith,
  h,
  first-retag i v id version tags rs,
  ==_iff r.document_id id,
  ==_iff id i,
  ==_iff r.document_id i,
)

-- an update that keeps the id of every document, and kind, name and mark of those of the trail
module _ (p : Document → Bool) (f : Document → Document)
    (id_kept : (d : Document) → (f d).id ≡ d.id) where
  HasEntry-update :
      (id : ℕ) (name : String) (marked : Bool) (r : VersionRow) (t : Tables) (rs : List VersionRow)
      (n : ℕ)
      → ((d : Document)
          → d.kind ≡ role_audit
          → d.name ≡ name
          → ((updated p f d).kind ≡ d.kind)
            × ((updated p f d).name ≡ d.name)
            × ((updated p f d).is_active ≡ d.is_active))
      → first (is_version id r.version) rs ≡ some r
      → HasEntry id name marked r t
      → HasEntry id name marked r
          (record { documents = update_documents p f t.documents; versions = rs; next_id = n })
  HasEntry-update id name marked r t rs n kept row e =
      let (k, m, a) = kept e.document e.of_audit e.named in
      record {
        document = updated p f e.document;
        found =
            first-update_some (λ d. d.id == id) p f t.documents e.document
              (λ d. ap (λ i. i == id) (id_kept d)) e.found;
        of_audit = k ∙ e.of_audit;
        named = m ∙ e.named;
        still_marked = a ∙ e.still_marked;
        row = row;
      }

-- the document a write found is of another kind, so no document of the trail has its kind
other_kind :
    (kind name : String) (ds : List Document) (e d : Document)
    → first (is_live kind name) ds ≡ some e
    → guards_update e ≡ false
    → d.kind ≡ role_audit
    → is_live kind name d ≡ false
other_kind kind name ds e d found free audit = elim (Bool-cases (is_live kind name d)) [
  | inr f ↦ f
  | inl f ↦
      let own = first-holds (is_live kind name) ds e found in
      let k : d.kind ≡ kind = ground (arith, f, ==_iff d.kind kind) in
      let k' : e.kind ≡ kind = ground (arith, own, ==_iff e.kind kind) in
      let guarded : guards_update e ≡ true = (==_iff e.kind role_audit).1 (k' ∙ sym k ∙ audit) in cc
]

-- and it has another id
other_id :
    (kind name : String) (ds : List Document) (e d : Document)
    → distinct_ids ds ≡ true
    → first (is_live kind name) ds ≡ some e
    → guards_update e ≡ false
    → first (λ x. x.id == d.id) ds ≡ some d
    → d.kind ≡ role_audit
    → e.id == d.id ≡ false
other_id kind name ds e d distinct found free there audit = elim (Bool-cases (e.id == d.id)) [
  | inr f ↦ f
  | inl f ↦
      let same_id : e.id ≡ d.id = (==_iff e.id d.id).0 f in
      let e_found : first (λ x. x.id == d.id) ds ≡ some e =
        subst (λ i. first (λ x. x.id == i) ds ≡ some e) same_id
          (first_by_id (is_live kind name) ds e distinct found) in
      let same : e ≡ d = let g : some e ≡ some d = sym e_found ∙ there in cc in
      let guarded : guards_update e ≡ true =
        (==_iff e.kind role_audit).1 (ap (λ (x : Document). x.kind) same ∙ audit) in
      cc
]

entry_id :
    (id : ℕ) (ds : List Document) (d : Document) → first (λ x. x.id == id) ds ≡ some d → d.id ≡ id
entry_id id ds d h = (==_iff d.id id).0 (first-holds (λ x. x.id == id) ds d h)

module _ (id : ℕ) (name : String) (marked : Bool) (r : VersionRow) where
  HasEntry-set_active_version :
      (i v : ℕ) (t : Tables)
      → HasEntry id name marked r t
      → HasEntry id name marked r (set_active_version i v t)
  unfolding set_active_version
  HasEntry-set_active_version i v t e =
      HasEntry-update _ _ (λ d. refl) id name marked r t t.versions t.next_id (λ d _ _. pointer d)
        e.row e
    where
      pointer :
          (d : Document)
          → ((updated (λ x. x.id == i) (λ x. record x { active_version = v }) d).kind ≡ d.kind)
            × ((updated (λ x. x.id == i) (λ x. record x { active_version = v }) d).name ≡ d.name)
            × ((updated (λ x. x.id == i) (λ x. record x { active_version = v }) d).is_active
                ≡ d.is_active)
      pointer d = elim (Bool-cases (d.id == i)) [
        | inl e ↦ rw e (refl, refl, refl)
        | inr e ↦ rw e (refl, refl, refl)
      ]

  HasEntry-insert_version :
      (x : VersionRow) (t t' : Tables)
      → insert_version x t ≡ ok t'
      → HasEntry id name marked r t
      → HasEntry id name marked r t'
  unfolding insert_version
  HasEntry-insert_version x t t' h e =
      elim (Bool-cases (any (is_version x.document_id x.version) t.versions)) [
        | inl f ↦ let refused : raise fault ≡ ok t' = rw f at h in cc
        | inr f ↦
            let made = ok-injective (rw f at h) in
            subst (HasEntry id name marked r) made (record {
              document = e.document;
              found = e.found;
              of_audit = e.of_audit;
              named = e.named;
              still_marked = e.still_marked;
              row = first-append (is_version id r.version) t.versions (x ∷ []) ∙ rw e.row refl;
            })
      ]

  HasEntry-insert_document :
      (k n : String) (now : ℕ) (t : Tables) (made : ℕ × Tables)
      → insert_document k n now t ≡ ok made
      → HasEntry id name marked r t
      → HasEntry id name marked r made.1
  unfolding insert_document
  HasEntry-insert_document k n now t made h e = elim (Bool-cases (any (is_live k n) t.documents)) [
    | inl f ↦ let refused : raise document_exists ≡ ok made = rw f at h in cc
    | inr f ↦
        let same = ok-injective (rw f at h) in
        subst (λ (x : ℕ × Tables). HasEntry id name marked r x.1) same
          (record {
            document = e.document;
            found =
                first-append (λ (d : Document). d.id == id) t.documents (_ ∷ []) ∙ rw e.found refl;
            of_audit = e.of_audit;
            named = e.named;
            still_marked = e.still_marked;
            row = e.row;
          })
  ]
