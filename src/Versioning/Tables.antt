-- ===== src/Versioning/Tables.antt =====
-- The two tables of sql/resources/tai42_skeleton.init.sql with their unique indexes, and the statements
-- that versioning/store.py makes on them.
use tai_skeleton.Base.{
  ℕ, suc, Bool, true, ◌&&◌, Option, none, some, List, [], ◌∷◌, ◌++◌, String, ◌==◌, nat_eq,
  string_eq, ltb, any, if◌then◌else◌, Result, ok, raise, document_exists, fault,
}
use tai_skeleton.AccessControl.Policy.{Dict}

-- A row of versioned_documents.
pub record Document : Type 0 where
  pub id : ℕ
  pub kind : String
  pub name : String
  pub active_version : ℕ
  pub is_active : Bool
  pub created_at : ℕ

-- A row of versioned_document_versions.
pub record VersionRow : Type 0 where
  pub document_id : ℕ
  pub version : ℕ
  pub body : Dict
  pub tags : List String
  pub created_at : ℕ

pub record Tables : Type 0 where
  pub documents : List Document
  pub versions : List VersionRow
  pub next_id : ℕ

abbrev pub role_audit : String
role_audit = "role_audit"

-- kind = %s AND name = %s AND is_active
abbrev pub is_live : String → String → Document → Bool
is_live kind name d = d.is_active && (d.kind == kind && d.name == name)

-- fetchone
unfoldable pub first {ℓ} : {A : Type ℓ} → (A → Bool) → List A → Option A
first p [] = none
first p (x ∷ xs) = if p x then some x else first p xs

unfoldable pub live_document : String → String → Tables → Option Document
unfolding first
live_document kind name t = first (is_live kind name) t.documents

abbrev pub is_version : ℕ → ℕ → VersionRow → Bool
is_version document_id version r = r.document_id == document_id && r.version == version

unfoldable pub version_row : ℕ → ℕ → Tables → Option VersionRow
unfolding first
version_row document_id version t = first (is_version document_id version) t.versions

-- SELECT MAX(version) … WHERE document_id = %s
unfoldable pub max_version : ℕ → List VersionRow → Option ℕ
max_version document_id [] = none
max_version document_id (r ∷ rs) =
    let rest = max_version document_id rs in
    if r.document_id == document_id
    then elim rest [
      | none ↦ some r.version
      | some v ↦ if ltb v r.version then some r.version else some v
    ]
    else rest

-- UPDATE versioned_documents SET … WHERE …
unfoldable pub update_documents :
    (Document → Bool) → (Document → Document) → List Document → List Document
update_documents p f [] = []
update_documents p f (d ∷ ds) = (if p d then f d else d) ∷ update_documents p f ds

-- the trigger on updates of a document: only the pointer of a role_audit may change
abbrev pub guards_update : Document → Bool
guards_update d = d.kind == role_audit

unfoldable pub insert_document : String → String → ℕ → Tables → Result (ℕ × Tables)
unfolding any
insert_document kind name now t =
    if any (is_live kind name) t.documents
    then raise document_exists
    else (let row : Document = record {
      id = t.next_id;
      kind = kind;
      name = name;
      active_version = 1;
      is_active = true;
      created_at = now;
    } in
        ok (
          t.next_id,
          record {
            documents = t.documents ++ row ∷ [];
            versions = t.versions;
            next_id = suc t.next_id;
          },
        ))

-- with the unique constraint on document and version
unfoldable pub insert_version : VersionRow → Tables → Result Tables
unfolding any
insert_version r t =
    if any (is_version r.document_id r.version) t.versions
    then raise fault
    else ok
        (record { documents = t.documents; versions = t.versions ++ r ∷ []; next_id = t.next_id })

unfoldable pub set_active_version : ℕ → ℕ → Tables → Tables
unfolding update_documents
set_active_version id version t = record t {
  documents =
      update_documents (λ d. d.id == id) (λ d. record d { active_version = version }) t.documents;
}
