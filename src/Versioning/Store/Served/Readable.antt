-- ===== src/Versioning/Store/Served/Readable.antt =====
-- Reading and saving after a sequence of writes.
use tai_skeleton.Base.{
  ℕ, ◌+◌, Bool, true, false, ◌≡◌, inl, inr, refl, sym, ap, ◌∙◌, some, List, [], ◌∷◌, ◌++◌, String,
  arith, nat_eq, string_eq, any, Option-cases, ok,
}
use tai_skeleton.AccessControl.Policy.{Dict}
use tai_skeleton.Versioning.Tables.{
  Document, VersionRow, Tables, is_live, is_version, first, max_version, live_document, version_row,
  insert_version, set_active_version,
}
use tai_skeleton.Versioning.Store.{
  save_version, Write, run_writes, get_active_body, DocumentVersion, version_of,
}
use tai_skeleton.Versioning.Store.Rows.{is_some-first, is_some, all-first}
use tai_skeleton.Versioning.Store.Rows.{max_version-bounds, max_version-none}
use tai_skeleton.Versioning.Store.Sound.{IsSound}
use tai_skeleton.Versioning.Store.Served.{has_row, IsServed}
use tai_skeleton.Versioning.Store.Served.Writes.{run_writes-IsServed}

first-any :
    {A : Type 0} (p : A → Bool) (xs : List A) → any p xs ≡ true → (x : A) × (first p xs ≡ some x)
first-any p xs h = elim (Option-cases (first p xs)) [
  | inl e ↦ let none_found : false ≡ true = ap is_some (sym e) ∙ is_some-first p xs ∙ h in cc
  | inr found ↦ found
]

max_version-any :
    (id v : ℕ) (rs : List VersionRow)
    → any (is_version id v) rs ≡ true
    → (latest : ℕ) × (max_version id rs ≡ some latest)
max_version-any id v rs h = elim (Option-cases (max_version id rs)) [
  | inr found ↦ found
  | inl e ↦ let free = max_version-none id v rs e in cc
]

saved :
    (kind name : String) (body : Dict) (tags : List String) (now : ℕ) (t : Tables) (d : Document)
    (latest : ℕ)
    → live_document kind name t ≡ some d
    → max_version d.id t.versions ≡ some latest
    → (r : DocumentVersion × Tables) × (save_version kind name body tags now t ≡ ok r)
unfolding save_version insert_version
saved kind name body tags now t d latest found largest =
    let free = max_version-bounds d.id (latest + 1) latest t.versions largest (omega arith) in
    let row : VersionRow = record {
      document_id = d.id;
      version = latest + 1;
      body = body;
      tags = tags;
      created_at = now;
    } in
    (
      (
        version_of (latest + 1) row,
        set_active_version d.id (latest + 1) (record {
          documents = t.documents;
          versions = t.versions ++ row ∷ [];
          next_id = t.next_id;
        }),
      ),
      rw (found, largest, free) refl,
    )

-- Whatever writes were made in sound and served tables, a live document can be read, with or without a
-- lock, to one body, and another version of it can be saved.
pub run_writes-readable :
    (ws : List Write) (t t' : Tables) (kind name : String) (d : Document) (body : Dict)
    (tags : List String) (now : ℕ)
    → IsSound t
    → IsServed t
    → run_writes ws t ≡ ok t'
    → live_document kind name t' ≡ some d
    → ((active : Dict) × (get_active_body false false kind name t' ≡ ok active)
        × (get_active_body true true kind name t' ≡ ok active))
      × ((r : DocumentVersion × Tables) × (save_version kind name body tags now t' ≡ ok r))
unfolding get_active_body version_row live_document
run_writes-readable ws t t' kind name d body tags now sound s h found =
    let served = run_writes-IsServed ws t t' sound s h in
    let there =
      all-first (is_live kind name) (has_row t'.versions) t'.documents d served.rows found in
    let (row, e) = first-any (is_version d.id d.active_version) t'.versions there in
    let (latest, largest) = max_version-any d.id d.active_version t'.versions there in
    (
      (row.body, rw (found, e) refl, rw (found, e) refl),
      saved kind name body tags now t' d latest found largest,
    )
