-- ===== src/Versioning/Store/Sound.antt =====
-- Well-formed tables, and each write on them.
use tai_skeleton.Base.{
  ℕ, suc, ◌+◌, Bool, true, false, ◌&&◌, not, ◌≡◌, inl, inr, refl, ap, ◌∙◌, subst, some, List, [],
  ◌∷◌, String, arith, ◌==◌, nat_eq, string_eq, ltb, any, all, if◌then◌else◌, Bool-cases, ok, raise,
  fault, document_not_found, document_exists, document_version_not_found, >>=-eq-ok, raise_if,
  raise_if-eq-ok, require, require-eq-ok, ok-injective,
}
use tai_skeleton.AccessControl.Policy.{Dict}
use tai_skeleton.Versioning.Tables.{
  Document, VersionRow, Tables, is_live, is_version, max_version, live_document, version_row,
  guards_update, insert_document, insert_version, set_active_version,
}
use tai_skeleton.Versioning.Store.{
  retag, create, save_version, set_version_tags, rollback, soft_delete, delete, rename, Write,
  create_write, save_write, tags_write, rollback_write, soft_delete_write, delete_write,
  rename_write, run_write,
}
use tai_skeleton.Versioning.Store.Rows.{
  distinct_ids, live_once, all-append, all-first, all-keep, all_imp, distinct_ids-update,
  all_below-update, distinct_ids-keep, distinct_ids-append,
}
use tai_skeleton.Versioning.Store.Live.{
  live_once-pointer, live_once-deleted, live_once-keep, live_once-append, live_once-renamed,
}

-- The ids of the documents are distinct and were given out, no two live documents have one kind and
-- name, and the version rows belong to documents that were created.
pub record IsSound (t : Tables) : Type 0 where
  pub distinct : distinct_ids t.documents ≡ true
  pub given : all (λ (d : Document). ltb d.id t.next_id) t.documents ≡ true
  pub once : live_once t.documents ≡ true
  pub rows_given : all (λ (r : VersionRow). ltb r.document_id t.next_id) t.versions ≡ true

-- a document found has an id that was given out
found_given :
    (t : Tables) (kind name : String) (d : Document)
    → IsSound t
    → live_document kind name t ≡ some d
    → ltb d.id t.next_id ≡ true
unfolding live_document
found_given t kind name d s h =
    all-first (is_live kind name) (λ (e : Document). ltb e.id t.next_id) t.documents d s.given h

insert_version-IsSound :
    (r : VersionRow) (t : Tables) {t' : Tables}
    → IsSound t
    → ltb r.document_id t.next_id ≡ true
    → insert_version r t ≡ ok t'
    → IsSound t'
unfolding insert_version all
insert_version-IsSound r t s g h =
    let e = if_else-ok _ _ h in
    subst IsSound e (record {
      distinct = s.distinct;
      given = s.given;
      once = s.once;
      rows_given =
          all-append (λ (x : VersionRow). ltb x.document_id t.next_id) t.versions (r ∷ [])
          ∙ ground (arith, s.rows_given, g);
    })
  where
    if_else-ok :
        {A : Type 0} (b : Bool) (a : A) {c : A} → (if b then raise fault else ok a) ≡ ok c → a ≡ c
    if_else-ok true a k = cc
    if_else-ok false a k = cc

set_active_version-IsSound : (i v : ℕ) (t : Tables) → IsSound t → IsSound (set_active_version i v t)
unfolding set_active_version
set_active_version-IsSound i v t s = record {
  distinct = distinct_ids-update _ _ (λ d. refl) t.documents ∙ s.distinct;
  given = all_below-update _ _ (λ d. refl) t.next_id t.documents ∙ s.given;
  once = live_once-pointer i v t.documents ∙ s.once;
  rows_given = s.rows_given;
}

next_id-set_active_version : (i v : ℕ) (t : Tables) → (set_active_version i v t).next_id ≡ t.next_id
unfolding set_active_version
next_id-set_active_version i v t = refl

insert_document-IsSound :
    (kind name : String) (now : ℕ) (t : Tables) (r : ℕ × Tables)
    → IsSound t
    → insert_document kind name now t ≡ ok r
    → IsSound r.1 × (ltb r.0 r.1.next_id ≡ true)
unfolding insert_document all
insert_document-IsSound kind name now t r s h =
    elim (Bool-cases (any (is_live kind name) t.documents)) [
      | inl e ↦ let refused : raise document_exists ≡ ok r = rw e at h in cc
      | inr e ↦
          let row : Document = record {
            id = t.next_id;
            kind = kind;
            name = name;
            active_version = 1;
            is_active = true;
            created_at = now;
          } in
          let made = ok-injective (rw e at h) in
          subst (λ (x : ℕ × Tables). IsSound x.1 × (ltb x.0 x.1.next_id ≡ true)) made
            (
              record {
                distinct = distinct_ids-append t.documents row s.distinct s.given;
                given =
                    all-append (λ (x : Document). ltb x.id (suc t.next_id)) t.documents (row ∷ [])
                    ∙ ground (arith, below_suc t.next_id t.documents s.given);
                once = live_once-append t.documents row s.once e;
                rows_given =
                    all_imp (λ (x : VersionRow). ltb x.document_id t.next_id)
                      (λ x. ltb x.document_id (suc t.next_id)) t.versions (λ x l. ground arith)
                      s.rows_given;
              },
              ground arith,
            )
    ]
  where
    below_suc :
        (n : ℕ) (ds : List Document)
        → all (λ (x : Document). ltb x.id n) ds ≡ true
        → all (λ (x : Document). ltb x.id (suc n)) ds ≡ true
    below_suc n ds =
        all_imp (λ (x : Document). ltb x.id n) (λ x. ltb x.id (suc n)) ds (λ x l. ground arith)

create-IsSound :
    (kind name : String) (body : Dict) (tags : List String) (now : ℕ) (t t' : Tables)
    → IsSound t
    → run_write (create_write kind name body tags now) t ≡ ok t'
    → IsSound t'
unfolding run_write create
create-IsSound kind name body tags now t t' s h =
    let (r, e, h1) = >>=-eq-ok (create kind name body tags now t) _ h in
    let (made, e1, h2) = >>=-eq-ok (insert_document kind name now t) _ e in
    let (t2, e2, h3) = >>=-eq-ok (insert_version _ made.1) _ h2 in
    let (s1, g1) = insert_document-IsSound kind name now t made s e1 in
    let last : t2 ≡ t' = ap (λ (x : _ × Tables). x.1) (ok-injective h3) ∙ ok-injective h1 in
    subst IsSound last (insert_version-IsSound _ made.1 s1 g1 e2)

save_version-IsSound :
    (kind name : String) (body : Dict) (tags : List String) (now : ℕ) (t t' : Tables)
    → IsSound t
    → run_write (save_write kind name body tags now) t ≡ ok t'
    → IsSound t'
unfolding run_write save_version
save_version-IsSound kind name body tags now t t' s h =
    let (r, e, h1) = >>=-eq-ok (save_version kind name body tags now t) _ h in
    let (d, e1, h2) = >>=-eq-ok (require (live_document kind name t) document_not_found) _ e in
    let (latest, e2, h3) = >>=-eq-ok (require (max_version d.id t.versions) fault) _ h2 in
    let (t1, e3, h4) = >>=-eq-ok (insert_version _ t) _ h3 in
    let found = found_given t kind name d s (require-eq-ok _ _ e1) in
    let last : set_active_version d.id (latest + 1) t1 ≡ t' =
      ap (λ (x : _ × Tables). x.1) (ok-injective h4) ∙ ok-injective h1 in
    subst IsSound last
      (set_active_version-IsSound d.id (latest + 1) t1 (insert_version-IsSound _ t s found e3))

retag-below :
    (n id version : ℕ) (tags : List String) (rs : List VersionRow)
    → all (λ (r : VersionRow). ltb r.document_id n) (retag id version tags rs)
      ≡ all (λ (r : VersionRow). ltb r.document_id n) rs
unfolding all retag
retag-below n id version tags [] = refl
retag-below n id version tags (r ∷ rs) = ground (arith, retag-below n id version tags rs)

set_version_tags-IsSound :
    (kind name : String) (version : ℕ) (tags : List String) (t t' : Tables)
    → IsSound t
    → set_version_tags kind name version tags t ≡ ok t'
    → IsSound t'
unfolding set_version_tags
set_version_tags-IsSound kind name version tags t t' s h =
    let (d, _, h1) =
      >>=-eq-ok (require (live_document kind name t) document_version_not_found) _ h in
    let (_, _, h2) =
      >>=-eq-ok
        (raise_if (not (any (is_version d.id version) t.versions)) document_version_not_found) _
        h1 in
    let (_, _, h3) = >>=-eq-ok (raise_if (guards_update d) fault) _ h2 in
    subst IsSound (ok-injective h3) (record {
      distinct = s.distinct;
      given = s.given;
      once = s.once;
      rows_given = retag-below t.next_id d.id version tags t.versions ∙ s.rows_given;
    })

rollback-IsSound :
    (kind name : String) (version : ℕ) (t t' : Tables)
    → IsSound t
    → run_write (rollback_write kind name version) t ≡ ok t'
    → IsSound t'
unfolding run_write rollback
rollback-IsSound kind name version t t' s h =
    let (r, e, h1) = >>=-eq-ok (rollback kind name version t) _ h in
    let (d, _, h2) =
      >>=-eq-ok (require (live_document kind name t) document_version_not_found) _ e in
    let (row, _, h3) =
      >>=-eq-ok (require (version_row d.id version t) document_version_not_found) _ h2 in
    let last : set_active_version d.id version t ≡ t' =
      ap (λ (x : _ × Tables). x.1) (ok-injective h3) ∙ ok-injective h1 in
    subst IsSound last (set_active_version-IsSound d.id version t s)

soft_delete-IsSound :
    (kind name : String) (t t' : Tables) → IsSound t → soft_delete kind name t ≡ ok t' → IsSound t'
unfolding soft_delete
soft_delete-IsSound kind name t t' s h =
    let (d, _, h1) = >>=-eq-ok (require (live_document kind name t) document_not_found) _ h in
    let (_, _, h2) = >>=-eq-ok (raise_if (guards_update d) fault) _ h1 in
    subst IsSound (ok-injective h2) (record {
      distinct = distinct_ids-update _ _ (λ d. refl) t.documents ∙ s.distinct;
      given = all_below-update _ _ (λ d. refl) t.next_id t.documents ∙ s.given;
      once = live_once-deleted (is_live kind name) t.documents s.once;
      rows_given = s.rows_given;
    })

delete-IsSound :
    (kind name : String) (t t' : Tables) → IsSound t → delete kind name t ≡ ok t' → IsSound t'
unfolding delete
delete-IsSound kind name t t' s h =
    let (d, _, h1) = >>=-eq-ok (require (live_document kind name t) document_not_found) _ h in
    let (_, _, h2) = >>=-eq-ok (raise_if (guards_update d) fault) _ h1 in
    subst IsSound (ok-injective h2) (record {
      distinct = distinct_ids-keep _ t.documents s.distinct;
      given = all-keep _ _ t.documents s.given;
      once = live_once-keep _ t.documents s.once;
      rows_given = all-keep _ _ t.versions s.rows_given;
    })

rename-IsSound :
    (kind name new_name : String) (t t' : Tables)
    → IsSound t
    → run_write (rename_write kind name new_name) t ≡ ok t'
    → IsSound t'
unfolding run_write rename
rename-IsSound kind name new_name t t' s h =
    let (r, e, h1) = >>=-eq-ok (rename kind name new_name t) _ h in
    let (d, _, h2) = >>=-eq-ok (require (live_document kind name t) document_not_found) _ e in
    let (_, _, h3) = >>=-eq-ok (raise_if (guards_update d && not (new_name == name)) fault) _ h2 in
    let (_, free, h4) =
      >>=-eq-ok
        (raise_if (any (is_live kind new_name) t.documents && not (new_name == name))
          document_exists)
        _ h3 in
    let last = ap (λ (x : _ × Tables). x.1) (ok-injective h4) ∙ ok-injective h1 in
    subst IsSound last (record {
      distinct = distinct_ids-update _ _ (λ d. refl) t.documents ∙ s.distinct;
      given = all_below-update _ _ (λ d. refl) t.next_id t.documents ∙ s.given;
      once = live_once-renamed kind name new_name t.documents s.once (raise_if-eq-ok _ _ free);
      rows_given = s.rows_given;
    })

-- Every write keeps the tables sound.
pub run_write-IsSound : (w : Write) (t t' : Tables) → IsSound t → run_write w t ≡ ok t' → IsSound t'
unfolding run_write
run_write-IsSound (create_write kind name body tags now) t t' s h =
    create-IsSound kind name body tags now t t' s h
run_write-IsSound (save_write kind name body tags now) t t' s h =
    save_version-IsSound kind name body tags now t t' s h
run_write-IsSound (tags_write kind name version tags) t t' s h =
    set_version_tags-IsSound kind name version tags t t' s h
run_write-IsSound (rollback_write kind name version) t t' s h =
    rollback-IsSound kind name version t t' s h
run_write-IsSound (soft_delete_write kind name) t t' s h = soft_delete-IsSound kind name t t' s h
run_write-IsSound (delete_write kind name) t t' s h = delete-IsSound kind name t t' s h
run_write-IsSound (rename_write kind name new_name) t t' s h =
    rename-IsSound kind name new_name t t' s h
