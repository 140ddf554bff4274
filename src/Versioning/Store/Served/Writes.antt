-- ===== src/Versioning/Store/Served/Writes.antt =====
-- Each write, and the rows of the active versions.
use tai_skeleton.Base.{
  ℕ, ◌+◌, true, ◌&&◌, not, ◌≡◌, inl, inr, refl, sym, ap, ◌∙◌, subst, List, [], ◌∷◌, ◌++◌, String,
  arith, ◌==◌, ==_iff, nat_eq, string_eq, any, all, Bool-cases, ok, raise, fault,
  document_not_found, document_exists, document_version_not_found, >>=-eq-ok, raise_if, require,
  require-eq-ok, ok-injective,
}
use tai_skeleton.AccessControl.Policy.{Dict}
use tai_skeleton.Versioning.Tables.{
  Document, VersionRow, Tables, is_live, is_version, max_version, live_document, version_row,
  guards_update, insert_document, insert_version, set_active_version,
}
use tai_skeleton.Versioning.Store.{
  create, save_version, set_version_tags, rollback, soft_delete, delete, rename, Write,
  create_write, save_write, tags_write, rollback_write, soft_delete_write, delete_write,
  rename_write, run_write, run_writes,
}
use tai_skeleton.Versioning.Store.Rows.{any-append, all-append, is_some-first, is_some}
use tai_skeleton.Versioning.Store.Sound.{IsSound, run_write-IsSound}
use tai_skeleton.Versioning.Store.Served.{
  has_row, IsServed, has_row-append, has_row-pointer, has_row-update, has_row-retag, others_differ,
  has_row-delete,
}

insert_version-IsServed :
    (r : VersionRow) (t t' : Tables)
    → IsServed t
    → insert_version r t ≡ ok t'
    → IsServed t' × (any (is_version r.document_id r.version) t'.versions ≡ true)
unfolding insert_version any
insert_version-IsServed r t t' s h =
    elim (Bool-cases (any (is_version r.document_id r.version) t.versions)) [
      | inl e ↦ let refused : raise fault ≡ ok t' = rw e at h in cc
      | inr e ↦
          let own : is_version r.document_id r.version r ≡ true =
            ground (arith, ==_iff r.document_id r.document_id) in
          subst
            (λ (x : Tables).
              IsServed x × (any (is_version r.document_id r.version) x.versions ≡ true))
            (ok-injective (rw e at h))
            (
              record { rows = has_row-append t.versions (r ∷ []) t.documents s.rows },
              any-append (is_version r.document_id r.version) t.versions (r ∷ [])
                  ∙ rw (e, own) refl,
            )
    ]

set_active_version-IsServed :
    (id v : ℕ) (t : Tables)
    → IsServed t
    → any (is_version id v) t.versions ≡ true
    → IsServed (set_active_version id v t)
unfolding set_active_version
set_active_version-IsServed id v t s there = record {
  rows = has_row-pointer t.versions id v t.documents there s.rows;
}

insert_version-rows :
    (r : VersionRow) (t t' : Tables)
    → insert_version r t ≡ ok t'
    → (t'.documents ≡ t.documents) × (t'.versions ≡ t.versions ++ r ∷ [])
unfolding insert_version
insert_version-rows r t t' h =
    elim (Bool-cases (any (is_version r.document_id r.version) t.versions)) [
      | inl e ↦ let refused : raise fault ≡ ok t' = rw e at h in cc
      | inr e ↦
          let made = ok-injective (rw e at h) in
          (ap (λ (x : Tables). x.documents) (sym made), ap (λ (x : Tables). x.versions) (sym made))
    ]

abbrev new_document : String → String → ℕ → ℕ → Document
new_document kind name now id = record {
  id = id;
  kind = kind;
  name = name;
  active_version = 1;
  is_active = true;
  created_at = now;
}

insert_document-rows :
    (kind name : String) (now : ℕ) (t : Tables) (made : ℕ × Tables)
    → insert_document kind name now t ≡ ok made
    → (made.1.documents ≡ t.documents ++ new_document kind name now made.0 ∷ [])
      × (made.1.versions ≡ t.versions)
unfolding insert_document
insert_document-rows kind name now t made h =
    elim (Bool-cases (any (is_live kind name) t.documents)) [
      | inl e ↦ let refused : raise document_exists ≡ ok made = rw e at h in cc
      | inr e ↦
          subst
            (λ (x : ℕ × Tables).
              (x.1.documents ≡ t.documents ++ new_document kind name now x.0 ∷ [])
              × (x.1.versions ≡ t.versions))
            (ok-injective (rw e at h)) (refl, refl)
    ]

created-IsServed :
    (kind name : String) (body : Dict) (tags : List String) (now : ℕ) (t : Tables)
    (made : ℕ × Tables) (t2 : Tables)
    → IsServed t
    → insert_document kind name now t ≡ ok made
    → insert_version
        (record { document_id = made.0; version = 1; body = body; tags = tags; created_at = now })
        made.1
      ≡ ok t2
    → IsServed t2
unfolding all any
created-IsServed kind name body tags now t made t2 s h k =
    let row : VersionRow = record {
      document_id = made.0;
      version = 1;
      body = body;
      tags = tags;
      created_at = now;
    } in
    let (ds, rs) = insert_document-rows kind name now t made h in
    let (ds', rs') = insert_version-rows row made.1 t2 k in
    let documents : t2.documents ≡ t.documents ++ new_document kind name now made.0 ∷ [] =
      ds' ∙ ds in
    let versions : t2.versions ≡ t.versions ++ row ∷ [] =
      rs' ∙ ap (λ (x : List VersionRow). x ++ row ∷ []) rs in
    let old = has_row-append t.versions (row ∷ []) t.documents s.rows in
    let own : is_version made.0 1 row ≡ true = ground (arith, ==_iff made.0 made.0) in
    let new = any-append (is_version made.0 1) t.versions (row ∷ []) in
    let whole =
      all-append (has_row (t.versions ++ row ∷ [])) t.documents
        (new_document kind name now made.0 ∷ [])
      ∙ ground (arith, old, own, new) in
    record {
      rows =
          ap (λ (x : List VersionRow). all (has_row x) t2.documents) versions
          ∙ ap (λ (x : List Document). all (has_row (t.versions ++ row ∷ [])) x) documents
          ∙ whole;
    }

create-IsServed :
    (kind name : String) (body : Dict) (tags : List String) (now : ℕ) (t t' : Tables)
    → IsServed t
    → run_write (create_write kind name body tags now) t ≡ ok t'
    → IsServed t'
unfolding run_write create
create-IsServed kind name body tags now t t' s h =
    let (r, e, h1) = >>=-eq-ok (create kind name body tags now t) _ h in
    let (made, e1, h2) = >>=-eq-ok (insert_document kind name now t) _ e in
    let (t2, e2, h3) = >>=-eq-ok (insert_version _ made.1) _ h2 in
    let last : t2 ≡ t' = ap (λ (x : _ × Tables). x.1) (ok-injective h3) ∙ ok-injective h1 in
    subst IsServed last (created-IsServed kind name body tags now t made t2 s e1 e2)

save_version-IsServed :
    (kind name : String) (body : Dict) (tags : List String) (now : ℕ) (t t' : Tables)
    → IsServed t
    → run_write (save_write kind name body tags now) t ≡ ok t'
    → IsServed t'
unfolding run_write save_version
save_version-IsServed kind name body tags now t t' s h =
    let (r, e, h1) = >>=-eq-ok (save_version kind name body tags now t) _ h in
    let (d, e1, h2) = >>=-eq-ok (require (live_document kind name t) document_not_found) _ e in
    let (latest, e2, h3) = >>=-eq-ok (require (max_version d.id t.versions) fault) _ h2 in
    let (t1, e3, h4) = >>=-eq-ok (insert_version _ t) _ h3 in
    let (s1, there) = insert_version-IsServed _ t t1 s e3 in
    let last : set_active_version d.id (latest + 1) t1 ≡ t' =
      ap (λ (x : _ × Tables). x.1) (ok-injective h4) ∙ ok-injective h1 in
    subst IsServed last (set_active_version-IsServed d.id (latest + 1) t1 s1 there)

rollback-IsServed :
    (kind name : String) (v : ℕ) (t t' : Tables)
    → IsServed t
    → run_write (rollback_write kind name v) t ≡ ok t'
    → IsServed t'
unfolding run_write rollback version_row
rollback-IsServed kind name v t t' s h =
    let (r, e, h1) = >>=-eq-ok (rollback kind name v t) _ h in
    let (d, _, h2) =
      >>=-eq-ok (require (live_document kind name t) document_version_not_found) _ e in
    let (row, e2, h3) =
      >>=-eq-ok (require (version_row d.id v t) document_version_not_found) _ h2 in
    let there =
      sym (is_some-first (is_version d.id v) t.versions) ∙ ap is_some (require-eq-ok _ _ e2) in
    let last : set_active_version d.id v t ≡ t' =
      ap (λ (x : _ × Tables). x.1) (ok-injective h3) ∙ ok-injective h1 in
    subst IsServed last (set_active_version-IsServed d.id v t s there)

set_version_tags-IsServed :
    (kind name : String) (v : ℕ) (tags : List String) (t t' : Tables)
    → IsServed t
    → set_version_tags kind name v tags t ≡ ok t'
    → IsServed t'
unfolding set_version_tags
set_version_tags-IsServed kind name v tags t t' s h =
    let (d, _, h1) =
      >>=-eq-ok (require (live_document kind name t) document_version_not_found) _ h in
    let (_, _, h2) =
      >>=-eq-ok (raise_if (not (any (is_version d.id v) t.versions)) document_version_not_found) _
        h1 in
    let (_, _, h3) = >>=-eq-ok (raise_if (guards_update d) fault) _ h2 in
    subst IsServed (ok-injective h3)
      (record { rows = has_row-retag d.id v tags t.versions t.documents s.rows })

soft_delete-IsServed :
    (kind name : String) (t t' : Tables)
    → IsServed t
    → soft_delete kind name t ≡ ok t'
    → IsServed t'
unfolding soft_delete
soft_delete-IsServed kind name t t' s h =
    let (d, _, h1) = >>=-eq-ok (require (live_document kind name t) document_not_found) _ h in
    let (_, _, h2) = >>=-eq-ok (raise_if (guards_update d) fault) _ h1 in
    subst IsServed (ok-injective h2)
      (record { rows = has_row-update t.versions _ _ t.documents (λ x. refl) ∙ s.rows })

delete-IsServed :
    (kind name : String) (t t' : Tables)
    → IsSound t
    → IsServed t
    → delete kind name t ≡ ok t'
    → IsServed t'
unfolding delete live_document
delete-IsServed kind name t t' sound s h =
    let (d, e, h1) = >>=-eq-ok (require (live_document kind name t) document_not_found) _ h in
    let (_, _, h2) = >>=-eq-ok (raise_if (guards_update d) fault) _ h1 in
    let apart =
      others_differ (is_live kind name) t.documents d sound.distinct (require-eq-ok _ _ e) in
    subst IsServed (ok-injective h2) (record {
      rows = has_row-delete (is_live kind name) d.id t.versions t.documents apart s.rows;
    })

rename-IsServed :
    (kind name new_name : String) (t t' : Tables)
    → IsServed t
    → run_write (rename_write kind name new_name) t ≡ ok t'
    → IsServed t'
unfolding run_write rename
rename-IsServed kind name new_name t t' s h =
    let (r, e, h1) = >>=-eq-ok (rename kind name new_name t) _ h in
    let (d, _, h2) = >>=-eq-ok (require (live_document kind name t) document_not_found) _ e in
    let (_, _, h3) = >>=-eq-ok (raise_if (guards_update d && not (new_name == name)) fault) _ h2 in
    let (_, _, h4) =
      >>=-eq-ok
        (raise_if (any (is_live kind new_name) t.documents && not (new_name == name))
          document_exists)
        _ h3 in
    let last = ap (λ (x : _ × Tables). x.1) (ok-injective h4) ∙ ok-injective h1 in
    subst IsServed last
      (record { rows = has_row-update t.versions _ _ t.documents (λ x. refl) ∙ s.rows })

run_write-IsServed :
    (w : Write) (t t' : Tables) → IsSound t → IsServed t → run_write w t ≡ ok t' → IsServed t'
unfolding run_write
run_write-IsServed (create_write k n body tags now) t t' _ s h =
    create-IsServed k n body tags now t t' s h
run_write-IsServed (save_write k n body tags now) t t' _ s h =
    save_version-IsServed k n body tags now t t' s h
run_write-IsServed (tags_write k n v tags) t t' _ s h =
    set_version_tags-IsServed k n v tags t t' s h
run_write-IsServed (rollback_write k n v) t t' _ s h = rollback-IsServed k n v t t' s h
run_write-IsServed (soft_delete_write k n) t t' _ s h = soft_delete-IsServed k n t t' s h
run_write-IsServed (delete_write k n) t t' sound s h = delete-IsServed k n t t' sound s h
run_write-IsServed (rename_write k n new_name) t t' _ s h = rename-IsServed k n new_name t t' s h

pub run_writes-IsServed :
    (ws : List Write) (t t' : Tables)
    → IsSound t
    → IsServed t
    → run_writes ws t ≡ ok t'
    → IsServed t'
unfolding run_writes
run_writes-IsServed [] t t' sound s h = subst IsServed (ok-injective h) s
run_writes-IsServed (w ∷ ws) t t' sound s h =
    let (t1, e, h1) = >>=-eq-ok (run_write w t) _ h in
    run_writes-IsServed ws t1 t' (run_write-IsSound w t t1 sound e)
      (run_write-IsServed w t t1 sound s e) h1
