-- ===== src/Versioning/Store/History.antt =====
-- Reading back what was saved, and going back to a version.
use tai_skeleton.Base.{
  ℕ, ◌+◌, ◌<◌, true, false, ◌≡◌, inl, inr, refl, sym, ap, ◌∙◌, subst, some, List, [], ◌∷◌, ◌++◌,
  String, arith, ◌==◌, ==_iff, nat_eq, string_eq, ltb, eqb, any, Bool-cases, ok, raise, fault,
  document_not_found, document_version_not_found, >>=-eq-ok, raise_if, require, require-eq-ok,
  ok-injective,
}
use tai_skeleton.AccessControl.Policy.{Dict}
use tai_skeleton.Versioning.Tables.{
  Document, VersionRow, Tables, is_live, is_version, first, max_version, live_document, version_row,
  insert_version, set_active_version,
}
use tai_skeleton.Versioning.Store.{
  save_version, rollback, get_active_body, get_version, DocumentVersion, DocumentRecord, record_of,
  version_of,
}
use tai_skeleton.Versioning.Store.Rows.{
  first-append, first-holds, is_some-first, is_some, max_version-bounds,
}
use tai_skeleton.Versioning.Store.Lookups.{first-update_some}

set_active_version-live :
    (kind name : String) (v : ℕ) (t : Tables) (d : Document)
    → live_document kind name t ≡ some d
    → live_document kind name (set_active_version d.id v t) ≡ some (record d { active_version = v })
unfolding live_document set_active_version
set_active_version-live kind name v t d h =
    let own : d.id == d.id ≡ true = (==_iff d.id d.id).1 refl in
    first-update_some (is_live kind name) (λ e. e.id == d.id) (λ e. record e { active_version = v })
      t.documents d (λ e. refl) h
    ∙ rw own refl

live_document-insert_version :
    (kind name : String) (r : VersionRow) (t t' : Tables)
    → insert_version r t ≡ ok t'
    → (live_document kind name t' ≡ live_document kind name t)
      × (t'.versions ≡ t.versions ++ r ∷ [])
unfolding insert_version live_document
live_document-insert_version kind name r t t' h =
    elim (Bool-cases (any (is_version r.document_id r.version) t.versions)) [
      | inl e ↦ let refused : raise fault ≡ ok t' = rw e at h in cc
      | inr e ↦
          let made = ok-injective (rw e at h) in
          (ap (live_document kind name) (sym made), ap (λ (x : Tables). x.versions) (sym made))
    ]

-- the row that was appended is the one of its number
appended_row :
    (id v : ℕ) (rs : List VersionRow) (r : VersionRow)
    → any (is_version id v) rs ≡ false
    → is_version id v r ≡ true
    → first (is_version id v) (rs ++ r ∷ []) ≡ some r
unfolding first any
appended_row id v [] r h k = rw k refl
appended_row id v (x ∷ xs) r h k = ground (arith, h, appended_row id v xs r)

-- the rows before it are found as they were
earlier_row :
    (id v : ℕ) (rs : List VersionRow) (r x : VersionRow)
    → first (is_version id v) rs ≡ some x
    → first (is_version id v) (rs ++ r ∷ []) ≡ some x
earlier_row id v rs r x h = first-append (is_version id v) rs (r ∷ []) ∙ rw h refl

-- the tables that a save leaves
module _ (kind name : String) (r : VersionRow) (t t1 : Tables) (d : Document) (v : ℕ)
    (found : live_document kind name t ≡ some d) (inserted : insert_version r t ≡ ok t1) where
  live-saved :
      live_document kind name (set_active_version d.id v t1)
      ≡ some (record d { active_version = v })
  live-saved =
      set_active_version-live kind name v t1 d
        ((live_document-insert_version kind name r t t1 inserted).0 ∙ found)

  versions-saved : (set_active_version d.id v t1).versions ≡ t.versions ++ r ∷ []
  unfolding set_active_version
  versions-saved = (live_document-insert_version kind name r t t1 inserted).1

  version_row-saved :
      (id u : ℕ)
      → version_row id u (set_active_version d.id v t1)
        ≡ first (is_version id u) (t.versions ++ r ∷ [])
  unfolding version_row
  version_row-saved id u = ap (first (is_version id u)) versions-saved

saved_body :
    (kind name : String) (t : Tables) (d : Document) (r : VersionRow)
    → live_document kind name t ≡ some d
    → version_row d.id d.active_version t ≡ some r
    → get_active_body false false kind name t ≡ ok r.body
unfolding get_active_body require raise_if
saved_body kind name t d r h k = rw (h, k) refl

saved_version :
    (kind name : String) (u : ℕ) (t : Tables) (d : Document) (r : VersionRow)
    → live_document kind name t ≡ some d
    → version_row d.id u t ≡ some r
    → get_version kind name u t ≡ ok (version_of d.active_version r)
unfolding get_version require
saved_version kind name u t d r h k = rw (h, k) refl

saved_active :
    (kind name : String) (body : Dict) (tags : List String) (now : ℕ) (t t1 : Tables) (d : Document)
    (latest : ℕ)
    → live_document kind name t ≡ some d
    → max_version d.id t.versions ≡ some latest
    → insert_version
        (record {
          document_id = d.id;
          version = latest + 1;
          body = body;
          tags = tags;
          created_at = now;
        })
        t
      ≡ ok t1
    → (get_active_body false false kind name (set_active_version d.id (latest + 1) t1) ≡ ok body)
      × (get_version kind name (latest + 1) (set_active_version d.id (latest + 1) t1)
          ≡ ok (
              version_of (latest + 1) (record {
                document_id = d.id;
                version = latest + 1;
                body = body;
                tags = tags;
                created_at = now;
              })))
saved_active kind name body tags now t t1 d latest found largest inserted =
    let row : VersionRow = record {
      document_id = d.id;
      version = latest + 1;
      body = body;
      tags = tags;
      created_at = now;
    } in
    let free = max_version-bounds d.id (latest + 1) latest t.versions largest (omega arith) in
    let own : is_version d.id (latest + 1) row ≡ true = ground (arith, ==_iff d.id d.id) in
    let live = live-saved kind name row t t1 d (latest + 1) found inserted in
    let there =
      version_row-saved kind name row t t1 d (latest + 1) found inserted d.id (latest + 1)
      ∙ appended_row d.id (latest + 1) t.versions row free own in
    (
      saved_body kind name (set_active_version d.id (latest + 1) t1)
          (record d { active_version = latest + 1 }) row live there,
      saved_version kind name (latest + 1) (set_active_version d.id (latest + 1) t1)
          (record d { active_version = latest + 1 }) row live there,
    )

-- What a save returns is the active version, and its body is the one that was saved.
pub save_version-active :
    (kind name : String) (body : Dict) (tags : List String) (now : ℕ) (t : Tables)
    (r : DocumentVersion × Tables)
    → save_version kind name body tags now t ≡ ok r
    → (get_active_body false false kind name r.1 ≡ ok body)
      × (get_version kind name r.0.version r.1 ≡ ok r.0)
unfolding save_version
save_version-active kind name body tags now t r h =
    let (d, e1, h2) = >>=-eq-ok (require (live_document kind name t) document_not_found) _ h in
    let (latest, e2, h3) = >>=-eq-ok (require (max_version d.id t.versions) fault) _ h2 in
    let (t1, e3, h4) = >>=-eq-ok (insert_version _ t) _ h3 in
    subst
      (λ (x : DocumentVersion × Tables).
        (get_active_body false false kind name x.1 ≡ ok body)
        × (get_version kind name x.0.version x.1 ≡ ok x.0))
      (ok-injective h4)
      (saved_active kind name body tags now t t1 d latest (require-eq-ok _ _ e1)
        (require-eq-ok _ _ e2) e3)

version_number :
    (id u latest : ℕ) (rs : List VersionRow) (r : VersionRow)
    → max_version id rs ≡ some latest
    → first (is_version id u) rs ≡ some r
    → (u < latest + 1) × (r.version ≡ u)
version_number id u latest rs r largest found = elim (Bool-cases (ltb latest u)) [
  | inl e ↦
      let free = max_version-bounds id u latest rs largest (ground (arith, e)) in
      let there : any (is_version id u) rs ≡ true =
        sym (is_some-first (is_version id u) rs) ∙ ap is_some found in
      cc
  | inr e ↦
      let own = first-holds (is_version id u) rs r found in
      (ground (arith, e), ground (arith, own, ==_iff r.version u))
]

saved_earlier :
    (kind name : String) (t t1 : Tables) (d : Document) (latest u : ℕ) (row : VersionRow)
    (w : DocumentVersion)
    → live_document kind name t ≡ some d
    → max_version d.id t.versions ≡ some latest
    → insert_version row t ≡ ok t1
    → get_version kind name u t ≡ ok w
    → (get_version kind name u (set_active_version d.id (latest + 1) t1)
        ≡ ok (record w { is_current = false }))
      × (u < latest + 1)
unfolding get_version version_row
saved_earlier kind name t t1 d latest u row w found largest inserted before =
    let (r, e, h) =
      >>=-eq-ok (require (version_row d.id u t) document_version_not_found) _
        (rw found at before) in
    let there = require-eq-ok _ _ e in
    let (below, own) = version_number d.id u latest t.versions r largest there in
    let live = live-saved kind name row t t1 d (latest + 1) found inserted in
    let after =
      version_row-saved kind name row t t1 d (latest + 1) found inserted d.id u
      ∙ earlier_row d.id u t.versions row r there in
    let other : eqb r.version (latest + 1) ≡ false = rw own (ground (arith, below)) in
    (
      saved_version kind name u (set_active_version d.id (latest + 1) t1)
            (record d { active_version = latest + 1 }) r live after
          ∙ ap
              (λ b. ok (record {
                version = r.version;
                body = r.body;
                tags = r.tags;
                created_at = r.created_at;
                is_current = b;
              }))
              other
          ∙ ap (λ (x : DocumentVersion). ok (record x { is_current = false })) (ok-injective h),
      below,
    )

-- Every version that could be read before a save reads after it as before, but as not the current one,
-- and its number is below the one of the save.
pub save_version-earlier :
    (kind name : String) (body : Dict) (tags : List String) (now u : ℕ) (t : Tables)
    (r : DocumentVersion × Tables) (w : DocumentVersion)
    → save_version kind name body tags now t ≡ ok r
    → get_version kind name u t ≡ ok w
    → (get_version kind name u r.1 ≡ ok (record w { is_current = false })) × (u < r.0.version)
unfolding save_version
save_version-earlier kind name body tags now u t r w h before =
    let (d, e1, h2) = >>=-eq-ok (require (live_document kind name t) document_not_found) _ h in
    let (latest, e2, h3) = >>=-eq-ok (require (max_version d.id t.versions) fault) _ h2 in
    let (t1, e3, h4) = >>=-eq-ok (insert_version _ t) _ h3 in
    subst
      (λ (x : DocumentVersion × Tables).
        (get_version kind name u x.1 ≡ ok (record w { is_current = false })) × (u < x.0.version))
      (ok-injective h4)
      (saved_earlier kind name t t1 d latest u _ w (require-eq-ok _ _ e1) (require-eq-ok _ _ e2) e3
        before)

-- A rollback to a version that can be read succeeds: its body is the active one, and no version row
-- changes.
pub rollback-active :
    (kind name : String) (v : ℕ) (t : Tables) (w : DocumentVersion)
    → get_version kind name v t ≡ ok w
    → (r : DocumentRecord × Tables) × (rollback kind name v t ≡ ok r)
      × (r.0.active_version ≡ v)
      × (get_active_body false false kind name r.1 ≡ ok w.body)
      × (r.1.versions ≡ t.versions)
unfolding rollback get_version set_active_version version_row
rollback-active kind name v t w h =
    let (d, e1, h2) =
      >>=-eq-ok (require (live_document kind name t) document_version_not_found) _ h in
    let (x, e2, h3) = >>=-eq-ok (require (version_row d.id v t) document_version_not_found) _ h2 in
    let found = require-eq-ok _ _ e1 in
    let there = require-eq-ok _ _ e2 in
    let live = set_active_version-live kind name v t d found in
    (
      (record_of (record d { active_version = v }), set_active_version d.id v t),
      rw (e1, e2) refl,
      refl,
      saved_body kind name (set_active_version d.id v t) (record d { active_version = v }) x live
            there
          ∙ ap (λ (y : DocumentVersion). ok y.body) (ok-injective h3),
      refl,
    )
