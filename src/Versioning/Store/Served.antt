-- ===== src/Versioning/Store/Served.antt =====
-- The active version of a document as a row of the table of versions.
pub mod Writes
pub mod Readable
use tai_skeleton.Base.{
  ℕ, suc, ◌+◌, ◌≤◌, ◌<◌, Bool, true, false, ◌&&◌, ◌||◌, not, ◌≡◌, ◌≢◌, ◌⊎◌, inl, inr, refl, sym, ap,
  ◌∙◌, subst, Option, none, some, List, [], ◌∷◌, ◌++◌, String, arith, ◌==◌, ==_iff, nat_eq,
  string_eq, ltb, eqb, any, all, keep, if◌then◌else◌, Bool-cases, Option-cases, Exc, Result, ok,
  raise, fault, document_not_found, document_exists, document_version_not_found, ◌>>=◌, >>=-eq-ok,
  raise_if, raise_if-eq-ok, require, require-eq-ok, ok-injective,
}
use tai_skeleton.AccessControl.Policy.{Dict}
use tai_skeleton.Versioning.Tables.{
  Document, VersionRow, Tables, is_live, is_version, first, max_version, update_documents,
  live_document, version_row, guards_update, insert_document, insert_version, set_active_version,
  role_audit,
}
use tai_skeleton.Versioning.Store.{
  retag, create, save_version, set_version_tags, rollback, soft_delete, delete, rename, Write,
  create_write, save_write, tags_write, rollback_write, soft_delete_write, delete_write,
  rename_write, run_write, run_writes, get_active_body, get_version, DocumentVersion, version_of,
}
use tai_skeleton.Versioning.Store.Rows.{
  distinct_ids, any-append, all-append, first-append, first-holds, is_some-first, is_some,
  all-first, all_imp,
}
use tai_skeleton.Versioning.Store.Lookups.{any-first}

-- the active version of a document is a row
abbrev pub has_row : List VersionRow → Document → Bool
has_row rs d = any (is_version d.id d.active_version) rs

pub record IsServed (t : Tables) : Type 0 where
  pub rows : all (has_row t.versions) t.documents ≡ true

-- more rows
pub has_row-append :
    (rs ys : List VersionRow) (ds : List Document)
    → all (has_row rs) ds ≡ true
    → all (has_row (rs ++ ys)) ds ≡ true
has_row-append rs ys ds h = all_imp (has_row rs) (has_row (rs ++ ys)) ds kept h
  where
    kept : (d : Document) → has_row rs d ≡ true → has_row (rs ++ ys) d ≡ true
    kept d k = any-append (is_version d.id d.active_version) rs ys ∙ rw k refl

-- a pointer that is moved to a row
pub has_row-pointer :
    (rs : List VersionRow) (i v : ℕ) (ds : List Document)
    → any (is_version i v) rs ≡ true
    → all (has_row rs) ds ≡ true
    → all (has_row rs) (update_documents (λ d. d.id == i) (λ d. record d { active_version = v }) ds)
      ≡ true
unfolding all update_documents
has_row-pointer rs i v [] there h = refl
has_row-pointer rs i v (d ∷ ds) there h =
    let rest = has_row-pointer rs i v ds there (ground (arith, h)) in
    elim (Bool-cases (d.id == i)) [
      | inl e ↦
          let own : any (is_version d.id v) rs ≡ true =
            subst (λ j. any (is_version j v) rs ≡ true) (sym ((==_iff d.id i).0 e)) there in
          rw (e, own) rest
      | inr e ↦ rw e (ground (arith, h, rest))
    ]

-- an update that keeps the id and the pointer
pub has_row-update :
    (rs : List VersionRow) (p : Document → Bool) (f : Document → Document) (ds : List Document)
    → ((d : Document) → has_row rs (f d) ≡ has_row rs d)
    → all (has_row rs) (update_documents p f ds) ≡ all (has_row rs) ds
unfolding all update_documents
has_row-update rs p f [] kept = refl
has_row-update rs p f (d ∷ ds) kept =
    let rest = has_row-update rs p f ds kept in
    elim (Bool-cases (p d)) [ inl e ↦ rw (e, kept d, rest) refl | inr e ↦ rw (e, rest) refl ]

any-retag :
    (i v id version : ℕ) (tags : List String) (rs : List VersionRow)
    → any (is_version i v) (retag id version tags rs) ≡ any (is_version i v) rs
unfolding any retag
any-retag i v id version tags [] = refl
any-retag i v id version tags (r ∷ rs) = ground (arith, any-retag i v id version tags rs)

pub has_row-retag :
    (id version : ℕ) (tags : List String) (rs : List VersionRow) (ds : List Document)
    → all (has_row rs) ds ≡ true
    → all (has_row (retag id version tags rs)) ds ≡ true
has_row-retag id version tags rs ds h =
    all_imp (has_row rs) (has_row (retag id version tags rs)) ds
      (λ d k. any-retag d.id d.active_version id version tags rs ∙ k) h

-- the rows of another document are kept
any_version-keep :
    (i v id : ℕ) (rs : List VersionRow)
    → i == id ≡ false
    → any (is_version i v) rs ≡ true
    → any (is_version i v) (keep (λ r. not (r.document_id == id)) rs) ≡ true
unfolding any keep
any_version-keep i v id [] d h = h
any_version-keep i v id (r ∷ rs) d h = elim (Bool-cases (r.document_id == id)) [
  | inl e ↦
      let other : r.document_id == i ≡ false =
        ground (arith, e, d, ==_iff r.document_id id, ==_iff r.document_id i, ==_iff i id) in
      let rest : any (is_version i v) rs ≡ true = rw other at h in
      rw e (any_version-keep i v id rs d rest)
  | inr e ↦ elim (Bool-cases (is_version i v r)) [
    | inl m ↦ rw (e, m) refl
    | inr m ↦ rw (e, m) (any_version-keep i v id rs d (rw m at h))
  ]
]

-- with distinct ids, the found document has its id alone among those that fail the test
others_differ :
    (p : Document → Bool) (ds : List Document) (e : Document)
    → distinct_ids ds ≡ true
    → first p ds ≡ some e
    → all (λ d. p d || not (d.id == e.id)) ds ≡ true
unfolding first distinct_ids all
others_differ p [] e h k = refl
others_differ p (d ∷ ds) e h k = elim (Bool-cases (p d)) [
  | inl m ↦
      let same : d ≡ e = let g : some d ≡ some e = rw m at k in cc in
      let apart : any (λ x. x.id == e.id) ds ≡ false =
        subst (λ y. any (λ x. x.id == y.id) ds ≡ false) same (ground (arith, h)) in
      rw m (none_same ds apart)
  | inr m ↦
      let found : first p ds ≡ some e = rw m at k in
      let differs : e.id == d.id ≡ false =
        any-first (λ x. x.id == d.id) p ds e (ground (arith, h)) found in
      let differs' : d.id == e.id ≡ false = ground (arith, differs) in
      rw (m, differs') (others_differ p ds e (ground (arith, h)) found)
]
  where
    none_same :
        (xs : List Document)
        → any (λ x. x.id == e.id) xs ≡ false
        → all (λ x. p x || not (x.id == e.id)) xs ≡ true
    none_same [] a = refl
    none_same (x ∷ xs) a = ground (arith, a, none_same xs)

pub has_row-delete :
    (p : Document → Bool) (id : ℕ) (rs : List VersionRow) (ds : List Document)
    → all (λ d. p d || not (d.id == id)) ds ≡ true
    → all (has_row rs) ds ≡ true
    → all (has_row (keep (λ r. not (r.document_id == id)) rs)) (keep (λ d. not (p d)) ds) ≡ true
unfolding all keep
has_row-delete p id rs [] h k = refl
has_row-delete p id rs (d ∷ ds) h k =
    let rest = has_row-delete p id rs ds (ground (arith, h)) (ground (arith, k)) in
    elim (Bool-cases (p d)) [
      | inl m ↦ rw m rest
      | inr m ↦
          let own =
            any_version-keep d.id d.active_version id rs (ground (arith, h, m))
              (ground (arith, k)) in
          rw (m, own) rest
    ]
