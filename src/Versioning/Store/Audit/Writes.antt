-- ===== src/Versioning/Store/Audit/Writes.antt =====
-- Each write, and a sequence of writes, on the audit trail.
use tai_skeleton.Base.{
  ℕ, ◌+◌, Bool, true, false, ◌&&◌, not, ◌≡◌, inl, inr, refl, sym, ap, ◌∙◌, subst, some, List, [],
  ◌∷◌, String, arith, ◌==◌, ==_iff, nat_eq, string_eq, any, Bool-cases, ok, fault,
  document_not_found, document_exists, document_version_not_found, >>=-eq-ok, raise_if,
  raise_if-eq-ok, require, require-eq-ok, ok-injective,
}
use tai_skeleton.AccessControl.Policy.{Dict}
use tai_skeleton.Versioning.Tables.{
  Document, VersionRow, Tables, is_live, is_version, first, max_version, live_document, version_row,
  guards_update, insert_document, insert_version, set_active_version, role_audit,
}
use tai_skeleton.Versioning.Store.{
  create, save_version, set_version_tags, rollback, soft_delete, delete, rename, Write,
  create_write, save_write, tags_write, rollback_write, soft_delete_write, delete_write,
  rename_write, run_write, run_writes,
}
use tai_skeleton.Versioning.Store.Rows.{first-holds}
use tai_skeleton.Versioning.Store.Lookups.{updated}
use tai_skeleton.Versioning.Store.Sound.{IsSound, run_write-IsSound}
use tai_skeleton.Versioning.Store.Audit.{
  HasEntry, first-keep, first-retag, HasEntry-update, other_kind, other_id, entry_id,
  HasEntry-set_active_version, HasEntry-insert_version, HasEntry-insert_document,
}

module _ (id : ℕ) (name : String) (marked : Bool) (r : VersionRow) where
  create-HasEntry :
      (k n : String) (body : Dict) (tags : List String) (now : ℕ) (t t' : Tables)
      → run_write (create_write k n body tags now) t ≡ ok t'
      → HasEntry id name marked r t
      → HasEntry id name marked r t'
  unfolding run_write create
  create-HasEntry k n body tags now t t' h e =
      let (x, e0, h1) = >>=-eq-ok (create k n body tags now t) _ h in
      let (made, e1, h2) = >>=-eq-ok (insert_document k n now t) _ e0 in
      let (t2, e2, h3) = >>=-eq-ok (insert_version _ made.1) _ h2 in
      let last : t2 ≡ t' = ap (λ (y : _ × Tables). y.1) (ok-injective h3) ∙ ok-injective h1 in
      subst (HasEntry id name marked r) last (
        HasEntry-insert_version id name marked r _ made.1 t2 e2
          (HasEntry-insert_document id name marked r k n now t made e1 e))

  save_version-HasEntry :
      (k n : String) (body : Dict) (tags : List String) (now : ℕ) (t t' : Tables)
      → run_write (save_write k n body tags now) t ≡ ok t'
      → HasEntry id name marked r t
      → HasEntry id name marked r t'
  unfolding run_write save_version
  save_version-HasEntry k n body tags now t t' h e =
      let (x, e0, h1) = >>=-eq-ok (save_version k n body tags now t) _ h in
      let (d, e1, h2) = >>=-eq-ok (require (live_document k n t) document_not_found) _ e0 in
      let (latest, e2, h3) = >>=-eq-ok (require (max_version d.id t.versions) fault) _ h2 in
      let (t1, e3, h4) = >>=-eq-ok (insert_version _ t) _ h3 in
      let last : set_active_version d.id (latest + 1) t1 ≡ t' =
        ap (λ (y : _ × Tables). y.1) (ok-injective h4) ∙ ok-injective h1 in
      subst (HasEntry id name marked r) last (
        HasEntry-set_active_version id name marked r d.id (latest + 1) t1
          (HasEntry-insert_version id name marked r _ t t1 e3 e))

  rollback-HasEntry :
      (k n : String) (v : ℕ) (t t' : Tables)
      → run_write (rollback_write k n v) t ≡ ok t'
      → HasEntry id name marked r t
      → HasEntry id name marked r t'
  unfolding run_write rollback
  rollback-HasEntry k n v t t' h e =
      let (x, e0, h1) = >>=-eq-ok (rollback k n v t) _ h in
      let (d, _, h2) = >>=-eq-ok (require (live_document k n t) document_version_not_found) _ e0 in
      let (_, _, h3) = >>=-eq-ok (require (version_row d.id v t) document_version_not_found) _ h2 in
      let last : set_active_version d.id v t ≡ t' =
        ap (λ (y : _ × Tables). y.1) (ok-injective h3) ∙ ok-injective h1 in
      subst (HasEntry id name marked r) last
        (HasEntry-set_active_version id name marked r d.id v t e)

  set_version_tags-HasEntry :
      (k n : String) (v : ℕ) (tags : List String) (t t' : Tables)
      → IsSound t
      → set_version_tags k n v tags t ≡ ok t'
      → HasEntry id name marked r t
      → HasEntry id name marked r t'
  unfolding set_version_tags live_document
  set_version_tags-HasEntry k n v tags t t' s h e =
      let (d, e1, h1) = >>=-eq-ok (require (live_document k n t) document_version_not_found) _ h in
      let (_, _, h2) =
        >>=-eq-ok (raise_if (not (any (is_version d.id v) t.versions)) document_version_not_found) _
          h1 in
      let (_, e3, h3) = >>=-eq-ok (raise_if (guards_update d) fault) _ h2 in
      let same_id = entry_id id t.documents e.document e.found in
      let differs =
        other_id k n t.documents d e.document s.distinct (require-eq-ok _ _ e1)
          (raise_if-eq-ok _ _ e3)
          (subst (λ i. first (λ x. x.id == i) t.documents ≡ some e.document) (sym same_id) e.found)
          e.of_audit in
      subst (HasEntry id name marked r) (ok-injective h3) (record {
        document = e.document;
        found = e.found;
        of_audit = e.of_audit;
        named = e.named;
        still_marked = e.still_marked;
        row =
            first-retag id r.version d.id v tags t.versions
              (subst (λ i. d.id == i ≡ false) same_id differs)
            ∙ e.row;
      })

  soft_delete-HasEntry :
      (k n : String) (t t' : Tables)
      → soft_delete k n t ≡ ok t'
      → HasEntry id name marked r t
      → HasEntry id name marked r t'
  unfolding soft_delete live_document
  soft_delete-HasEntry k n t t' h e =
      let (d, e1, h1) = >>=-eq-ok (require (live_document k n t) document_not_found) _ h in
      let (_, e2, h2) = >>=-eq-ok (raise_if (guards_update d) fault) _ h1 in
      subst (HasEntry id name marked r) (ok-injective h2) (
        HasEntry-update _ _ (λ x. refl) id name marked r t t.versions t.next_id
          (λ x audit _. spared d x (require-eq-ok _ _ e1) (raise_if-eq-ok _ _ e2) audit) e.row e)
    where
      spared :
          (d x : Document)
          → first (is_live k n) t.documents ≡ some d
          → guards_update d ≡ false
          → x.kind ≡ role_audit
          → ((updated (is_live k n) (λ y. record y { is_active = false }) x).kind ≡ x.kind)
            × ((updated (is_live k n) (λ y. record y { is_active = false }) x).name ≡ x.name)
            × ((updated (is_live k n) (λ y. record y { is_active = false }) x).is_active
                ≡ x.is_active)
      spared d x found free audit =
          rw (other_kind k n t.documents d x found free audit) (refl, refl, refl)

  delete-HasEntry :
      (k n : String) (t t' : Tables)
      → IsSound t
      → delete k n t ≡ ok t'
      → HasEntry id name marked r t
      → HasEntry id name marked r t'
  unfolding delete live_document
  delete-HasEntry k n t t' s h e =
      let (d, e1, h1) = >>=-eq-ok (require (live_document k n t) document_not_found) _ h in
      let (_, e2, h2) = >>=-eq-ok (raise_if (guards_update d) fault) _ h1 in
      let found = require-eq-ok _ _ e1 in
      let free = raise_if-eq-ok _ _ e2 in
      let same_id = entry_id id t.documents e.document e.found in
      let differs =
        other_id k n t.documents d e.document s.distinct found free
          (subst (λ i. first (λ x. x.id == i) t.documents ≡ some e.document) (sym same_id) e.found)
          e.of_audit in
      subst (HasEntry id name marked r) (ok-injective h2) (record {
        document = e.document;
        found =
            first-keep _ _ t.documents e.document e.found
              (rw (other_kind k n t.documents d e.document found free e.of_audit) refl);
        of_audit = e.of_audit;
        named = e.named;
        still_marked = e.still_marked;
        row = first-keep _ _ t.versions r e.row (
            row_kept d.id (subst (λ i. d.id == i ≡ false) same_id differs)
              (first-holds _ t.versions r e.row));
      })
    where
      row_kept :
          (i : ℕ)
          → i == id ≡ false
          → is_version id r.version r ≡ true
          → not (r.document_id == i) ≡ true
      row_kept i a b =
          ground (arith, a, b, ==_iff r.document_id id, ==_iff i id, ==_iff r.document_id i)

  rename-HasEntry :
      (k n new_name : String) (t t' : Tables)
      → run_write (rename_write k n new_name) t ≡ ok t'
      → HasEntry id name marked r t
      → HasEntry id name marked r t'
  unfolding run_write rename live_document
  rename-HasEntry k n new_name t t' h e =
      let (x, e0, h1) = >>=-eq-ok (rename k n new_name t) _ h in
      let (d, e1, h2) = >>=-eq-ok (require (live_document k n t) document_not_found) _ e0 in
      let (_, e2, h3) = >>=-eq-ok (raise_if (guards_update d && not (new_name == n)) fault) _ h2 in
      let (_, _, h4) =
        >>=-eq-ok
          (raise_if (any (is_live k new_name) t.documents && not (new_name == n)) document_exists) _
          h3 in
      let last = ap (λ (y : _ × Tables). y.1) (ok-injective h4) ∙ ok-injective h1 in
      subst (HasEntry id name marked r) last (
        HasEntry-update _ _ (λ y. refl) id name marked r t t.versions t.next_id
          (λ y audit _. spared d y (require-eq-ok _ _ e1) (raise_if-eq-ok _ _ e2) audit) e.row e)
    where
      spared :
          (d y : Document)
          → first (is_live k n) t.documents ≡ some d
          → (guards_update d && not (new_name == n)) ≡ false
          → y.kind ≡ role_audit
          → ((updated (is_live k n) (λ z. record z { name = new_name }) y).kind ≡ y.kind)
            × ((updated (is_live k n) (λ z. record z { name = new_name }) y).name ≡ y.name)
            × ((updated (is_live k n) (λ z. record z { name = new_name }) y).is_active
                ≡ y.is_active)
      spared d y found free audit = elim (Bool-cases (is_live k n y)) [
        | inr f ↦ rw f (refl, refl, refl)
        | inl f ↦ elim (Bool-cases (new_name == n)) [
          | inr m ↦
              let clash = other_kind k n t.documents d y found (ground (arith, free, m)) audit in cc
          | inl m ↦
              let own : n ≡ y.name = sym (ground (arith, f, ==_iff y.name n)) in
              rw f (refl, (==_iff new_name n).0 m ∙ own, refl)
        ]
      ]

-- A write keeps every entry of the audit trail in sound tables.
run_write-HasEntry :
    (id : ℕ) (name : String) (marked : Bool) (r : VersionRow) (w : Write) (t t' : Tables)
    → IsSound t
    → run_write w t ≡ ok t'
    → HasEntry id name marked r t
    → HasEntry id name marked r t'
unfolding run_write
run_write-HasEntry id name marked r (create_write k n body tags now) t t' s h e =
    create-HasEntry id name marked r k n body tags now t t' h e
run_write-HasEntry id name marked r (save_write k n body tags now) t t' s h e =
    save_version-HasEntry id name marked r k n body tags now t t' h e
run_write-HasEntry id name marked r (tags_write k n v tags) t t' s h e =
    set_version_tags-HasEntry id name marked r k n v tags t t' s h e
run_write-HasEntry id name marked r (rollback_write k n v) t t' s h e =
    rollback-HasEntry id name marked r k n v t t' h e
run_write-HasEntry id name marked r (soft_delete_write k n) t t' s h e =
    soft_delete-HasEntry id name marked r k n t t' h e
run_write-HasEntry id name marked r (delete_write k n) t t' s h e =
    delete-HasEntry id name marked r k n t t' s h e
run_write-HasEntry id name marked r (rename_write k n new_name) t t' s h e =
    rename-HasEntry id name marked r k n new_name t t' h e

-- In sound tables an entry of the audit trail outlives every sequence of writes: its version row is found
-- unchanged, and its document keeps its kind, its name and its mark.
pub run_writes-HasEntry :
    (id : ℕ) (name : String) (marked : Bool) (r : VersionRow) (ws : List Write) (t t' : Tables)
    → IsSound t
    → run_writes ws t ≡ ok t'
    → HasEntry id name marked r t
    → HasEntry id name marked r t'
unfolding run_writes
run_writes-HasEntry id name marked r [] t t' s h e =
    subst (HasEntry id name marked r) (ok-injective h) e
run_writes-HasEntry id name marked r (w ∷ ws) t t' s h e =
    let (t1, e1, h1) = >>=-eq-ok (run_write w t) _ h in
    run_writes-HasEntry id name marked r ws t1 t' (run_write-IsSound w t t1 s e1) h1
      (run_write-HasEntry id name marked r w t t1 s e1 e)
