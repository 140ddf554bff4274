-- ===== src/Versioning/Store.antt =====
-- versioning/store.py over the two tables of sql/resources/tai42_skeleton.init.sql, with their unique
-- indexes, the cascade and the triggers on role_audit. A statement maps tables to tables or raises, and
-- a raise leaves the tables of before: each write is one transaction, and so is a `do` block of writes
-- that share a `tx`. A body is opaque, a time is the clock of the database.
pub mod Rows
pub mod Live
pub mod Sound
pub mod Lookups
pub mod History
pub mod Audit
pub mod Served
use tai_skeleton.Base.{
  ℕ, suc, ◌+◌, Bool, true, false, ◌&&◌, ◌||◌, not, Option, none, some, List, [], ◌∷◌, ◌++◌, String,
  ◌==◌, nat_eq, string_eq, ltb, eqb, any, keep, sort, if◌then◌else◌, Exc, Result, ok, raise,
  document_not_found, document_exists, document_version_not_found, value_error, runtime_error,
  fault, ◌>>=◌, ◌>>◌, raise_if, require,
}
use tai_skeleton.AccessControl.Policy.{Dict}
use tai_skeleton.Versioning.Tables.{
  Document, VersionRow, Tables, role_audit, is_live, first, live_document, is_version, version_row,
  max_version, update_documents, guards_update, insert_document, insert_version, set_active_version,
}

pub record DocumentRecord : Type 0 where
  pub kind : String
  pub name : String
  pub active_version : ℕ
  pub is_active : Bool
  pub created_at : ℕ

pub record DocumentVersion : Type 0 where
  pub version : ℕ
  pub body : Dict
  pub tags : List String
  pub created_at : ℕ
  pub is_current : Bool

abbrev pub record_of : Document → DocumentRecord
record_of d = record {
  kind = d.kind;
  name = d.name;
  active_version = d.active_version;
  is_active = d.is_active;
  created_at = d.created_at;
}

abbrev pub version_of : ℕ → VersionRow → DocumentVersion
version_of active r = record {
  version = r.version;
  body = r.body;
  tags = r.tags;
  created_at = r.created_at;
  is_current = eqb r.version active;
}

unfoldable pub create :
    String → String → Dict → List String → ℕ → Tables → Result (DocumentRecord × Tables)
unfolding insert_document insert_version
create kind name body tags now t = do
  (id, t1) ← insert_document kind name now t
  t2 ←
      insert_version
        (record { document_id = id; version = 1; body = body; tags = tags; created_at = now }) t1
  ok (
    record { kind = kind; name = name; active_version = 1; is_active = true; created_at = now },
    t2,
  )

unfoldable pub save_version :
    String → String → Dict → List String → ℕ → Tables → Result (DocumentVersion × Tables)
unfolding live_document max_version insert_version set_active_version
save_version kind name body tags now t = do
  d ← require (live_document kind name t) document_not_found
  latest ← require (max_version d.id t.versions) fault
  let row : VersionRow = record {
    document_id = d.id;
    version = latest + 1;
    body = body;
    tags = tags;
    created_at = now;
  }
  t1 ← insert_version row t
  ok (version_of (latest + 1) row, set_active_version d.id (latest + 1) t1)

unfoldable pub get_document : String → String → Tables → Result DocumentRecord
unfolding live_document
get_document kind name t = do
  d ← require (live_document kind name t) document_not_found
  ok (record_of d)

-- whether it has a `tx`, and whether it locks: the locking read is two statements
unfoldable pub get_active_body : Bool → Bool → String → String → Tables → Result Dict
unfolding live_document version_row
get_active_body in_tx for_update kind name t = do
  raise_if (for_update && not in_tx) value_error
  d ← require (live_document kind name t) document_not_found
  r ←
      require (version_row d.id d.active_version t)
        (if for_update then runtime_error else document_not_found)
  ok r.body

unfoldable pub get_version : String → String → ℕ → Tables → Result DocumentVersion
unfolding live_document version_row
get_version kind name version t = do
  d ← require (live_document kind name t) document_version_not_found
  r ← require (version_row d.id version t) document_version_not_found
  ok (version_of d.active_version r)

unfoldable versions_of : ℕ → List VersionRow → List DocumentVersion
versions_of active [] = []
versions_of active (r ∷ rs) = version_of active r ∷ versions_of active rs

unfoldable pub list_versions : String → String → Tables → Result (List DocumentVersion)
unfolding live_document versions_of keep sort
list_versions kind name t = do
  d ← require (live_document kind name t) document_not_found
  let rows = keep (λ r. r.document_id == d.id) t.versions
  ok (versions_of d.active_version (sort (λ r s. ltb r.version s.version) rows))

-- UPDATE versioned_document_versions SET tags = %s WHERE …
unfoldable pub retag : ℕ → ℕ → List String → List VersionRow → List VersionRow
retag id version tags [] = []
retag id version tags (r ∷ rs) =
    (if is_version id version r then record r { tags = tags } else r) ∷ retag id version tags rs

-- with the trigger on the version rows of a role_audit
unfoldable pub set_version_tags : String → String → ℕ → List String → Tables → Result Tables
unfolding live_document retag any
set_version_tags kind name version tags t = do
  d ← require (live_document kind name t) document_version_not_found
  raise_if (not (any (is_version d.id version) t.versions)) document_version_not_found
  raise_if (guards_update d) fault
  ok (record t { versions = retag d.id version tags t.versions })

unfoldable pub rollback : String → String → ℕ → Tables → Result (DocumentRecord × Tables)
unfolding live_document version_row set_active_version
rollback kind name version t = do
  d ← require (live_document kind name t) document_version_not_found
  r ← require (version_row d.id version t) document_version_not_found
  ok (record_of (record d { active_version = version }), set_active_version d.id version t)

-- with the trigger on the update of a role_audit
unfoldable pub soft_delete : String → String → Tables → Result Tables
unfolding live_document update_documents
soft_delete kind name t = do
  d ← require (live_document kind name t) document_not_found
  raise_if (guards_update d) fault
  ok (record t {
    documents =
        update_documents (is_live kind name) (λ d. record d { is_active = false }) t.documents;
  })

-- with the trigger on the deletion of a role_audit, and the cascade
unfoldable pub delete : String → String → Tables → Result Tables
unfolding live_document keep
delete kind name t = do
  d ← require (live_document kind name t) document_not_found
  raise_if (guards_update d) fault
  ok (record t {
    documents = keep (λ e. not (is_live kind name e)) t.documents;
    versions = keep (λ r. not (r.document_id == d.id)) t.versions;
  })

-- with the trigger, then the unique index
unfoldable pub rename : String → String → String → Tables → Result (DocumentRecord × Tables)
unfolding live_document update_documents any
rename kind name new_name t = do
  d ← require (live_document kind name t) document_not_found
  raise_if (guards_update d && not (new_name == name)) fault
  raise_if (any (is_live kind new_name) t.documents && not (new_name == name)) document_exists
  ok (
    record_of (record d { name = new_name }),
    record t {
      documents =
          update_documents (is_live kind name) (λ d. record d { name = new_name }) t.documents;
    },
  )

-- The writes of the store, as one type.
pub data Write : Type 0 where
  create_write : String → String → Dict → List String → ℕ → Write
  save_write : String → String → Dict → List String → ℕ → Write
  tags_write : String → String → ℕ → List String → Write
  rollback_write : String → String → ℕ → Write
  soft_delete_write : String → String → Write
  delete_write : String → String → Write
  rename_write : String → String → String → Write

unfoldable pub run_write : Write → Tables → Result Tables
unfolding create save_version set_version_tags rollback soft_delete delete rename
run_write (create_write kind name body tags now) t =
    create kind name body tags now t >>= λ r. ok r.1
run_write (save_write kind name body tags now) t =
    save_version kind name body tags now t >>= λ r. ok r.1
run_write (tags_write kind name version tags) t = set_version_tags kind name version tags t
run_write (rollback_write kind name version) t = rollback kind name version t >>= λ r. ok r.1
run_write (soft_delete_write kind name) t = soft_delete kind name t
run_write (delete_write kind name) t = delete kind name t
run_write (rename_write kind name new_name) t = rename kind name new_name t >>= λ r. ok r.1

-- transaction: every write of the block, or none
unfoldable pub run_writes : List Write → Tables → Result Tables
unfolding run_write
run_writes [] t = ok t
run_writes (w ∷ ws) t = run_write w t >>= λ t'. run_writes ws t'
