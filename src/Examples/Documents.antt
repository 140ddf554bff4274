-- ===== src/Examples/Documents.antt =====
-- A presets document with three versions and an audit document of a role.
use tai_skeleton.Base.{
  some, ℕ, ◌<◌, true, false, ◌≡◌, refl, [], ◌∷◌, any, all, keep, sort, ok, raise, document_exists,
  fault,
}
use tai_skeleton.AccessControl.Policy.{Dict, opaque}
use tai_skeleton.Versioning.Tables.{live_document, Document, VersionRow, Tables, role_audit, first}
use tai_skeleton.Versioning.Store.{
  DocumentRecord, DocumentVersion, save_version, get_active_body, get_version, list_versions,
  rollback, create_write, save_write, rollback_write, soft_delete_write, run_write, run_writes,
}
use tai_skeleton.Versioning.Store.Rows.{distinct_ids, live_once}
use tai_skeleton.Versioning.Store.Sound.{IsSound, run_write-IsSound}
use tai_skeleton.Versioning.Store.History.{
  save_version-active, save_version-earlier, rollback-active,
}
use tai_skeleton.Versioning.Store.Served.{IsServed}
use tai_skeleton.Versioning.Store.Served.Readable.{run_writes-readable}
use tai_skeleton.Versioning.Store.Audit.{HasEntry}
use tai_skeleton.Versioning.Store.Audit.Writes.{run_writes-HasEntry}

abbrev body_of : ℕ → Dict
body_of n = ("body", opaque n) ∷ []

abbrev version_at : ℕ → ℕ → VersionRow
version_at id n = record {
  document_id = id;
  version = n;
  body = body_of n;
  tags = [];
  created_at = n;
}

abbrev preset : Document
preset = record {
  id = 1;
  kind = "preset";
  name = "ask";
  active_version = 2;
  is_active = true;
  created_at = 1;
}

abbrev trail : Document
trail = record {
  id = 2;
  kind = role_audit;
  name = "role:ops";
  active_version = 1;
  is_active = true;
  created_at = 2;
}

abbrev shelf : Tables
shelf = record {
  documents = (preset ∷ trail ∷ []);
  versions = (version_at 1 1 ∷ version_at 1 2 ∷ version_at 2 1 ∷ []);
  next_id = 3;
}

shelf-IsSound : IsSound shelf
unfolding distinct_ids live_once any all
shelf-IsSound = record { distinct = refl; given = refl; once = refl; rows_given = refl }

-- The shelf after a save of the preset.
abbrev saved_preset : Document
saved_preset = record preset { active_version = 3 }

abbrev saved_version : DocumentVersion
saved_version = record {
  version = 3;
  body = body_of 9;
  tags = ("new" ∷ []);
  created_at = 7;
  is_current = true;
}

abbrev saved_shelf : Tables
saved_shelf = record {
  documents = (saved_preset ∷ trail ∷ []);
  versions =
      (version_at 1 1
        ∷ version_at 1 2
        ∷ version_at 2 1
        ∷ record {
          document_id = 1;
          version = 3;
          body = body_of 9;
          tags = ("new" ∷ []);
          created_at = 7;
        }
        ∷ []);
  next_id = 3;
}

save-preset :
    save_version "preset" "ask" (body_of 9) ("new" ∷ []) 7 shelf ≡ ok (saved_version, saved_shelf)
unfolding save_version any first
save-preset = refl

saving_write :
    run_write (save_write "preset" "ask" (body_of 9) ("new" ∷ []) 7) shelf ≡ ok saved_shelf
unfolding run_write any first
saving_write = refl

abbrev first_version : DocumentVersion
first_version = record {
  version = 1;
  body = body_of 1;
  tags = [];
  created_at = 1;
  is_current = false;
}

first_version_read : get_version "preset" "ask" 1 shelf ≡ ok first_version
unfolding get_version first
first_version_read = refl

-- The numbers go on after a rollback: the next version is above the largest, not above the active one.
save_after_rollback :
    run_writes
      (rollback_write "preset" "ask" 1 ∷ save_write "preset" "ask" (body_of 9) ("new" ∷ []) 7 ∷ [])
      shelf
    ≡ ok saved_shelf
unfolding run_writes any first
save_after_rollback = refl

trail_refused : run_writes (soft_delete_write role_audit "role:ops" ∷ []) shelf ≡ raise fault
unfolding run_writes any first
trail_refused = refl

taken_name :
    run_writes (create_write "preset" "ask" (body_of 1) [] 8 ∷ []) shelf ≡ raise document_exists
unfolding run_writes any first
taken_name = refl

versions_listed :
    list_versions "preset" "ask" shelf
    ≡ ok (
        first_version
        ∷ record { version = 2; body = body_of 2; tags = []; created_at = 2; is_current = true }
        ∷ [])
unfolding list_versions keep sort first
versions_listed = refl

shelf-HasEntry : HasEntry 2 "role:ops" true (version_at 2 1) shelf
unfolding first
shelf-HasEntry = record {
  document = trail;
  found = refl;
  of_audit = refl;
  named = refl;
  still_marked = refl;
  row = refl;
}

run_write-IsSound_example : IsSound saved_shelf
run_write-IsSound_example =
    run_write-IsSound (save_write "preset" "ask" (body_of 9) ("new" ∷ []) 7) shelf saved_shelf
      shelf-IsSound saving_write

save_version-active_example :
    (get_active_body false false "preset" "ask" saved_shelf ≡ ok (body_of 9))
    × (get_version "preset" "ask" 3 saved_shelf ≡ ok saved_version)
save_version-active_example =
    save_version-active "preset" "ask" (body_of 9) ("new" ∷ []) 7 shelf (saved_version, saved_shelf)
      save-preset

save_version-earlier_example :
    (get_version "preset" "ask" 1 saved_shelf ≡ ok (record first_version { is_current = false }))
    × (1 < 3)
save_version-earlier_example =
    save_version-earlier "preset" "ask" (body_of 9) ("new" ∷ []) 7 1 shelf
      (saved_version, saved_shelf) first_version save-preset first_version_read

rollback-active_example :
    (r : DocumentRecord × Tables) × (rollback "preset" "ask" 1 shelf ≡ ok r)
    × (r.0.active_version ≡ 1)
    × (get_active_body false false "preset" "ask" r.1 ≡ ok first_version.body)
    × (r.1.versions ≡ shelf.versions)
rollback-active_example = rollback-active "preset" "ask" 1 shelf first_version first_version_read

run_writes-HasEntry_example : HasEntry 2 "role:ops" true (version_at 2 1) saved_shelf
run_writes-HasEntry_example =
    run_writes-HasEntry 2 "role:ops" true (version_at 2 1)
      (rollback_write "preset" "ask" 1 ∷ save_write "preset" "ask" (body_of 9) ("new" ∷ []) 7 ∷ [])
      shelf saved_shelf shelf-IsSound save_after_rollback shelf-HasEntry

shelf-IsServed : IsServed shelf
unfolding all any
shelf-IsServed = record { rows = refl }

saved_preset_live : live_document "preset" "ask" saved_shelf ≡ some saved_preset
unfolding live_document first
saved_preset_live = refl

run_writes-readable_example :
    ((active : Dict) × (get_active_body false false "preset" "ask" saved_shelf ≡ ok active)
      × (get_active_body true true "preset" "ask" saved_shelf ≡ ok active))
    × ((r : DocumentVersion × Tables) × (save_version "preset" "ask" (body_of 4) [] 8 saved_shelf
          ≡ ok r))
run_writes-readable_example =
    run_writes-readable
      (rollback_write "preset" "ask" 1 ∷ save_write "preset" "ask" (body_of 9) ("new" ∷ []) 7 ∷ [])
      shelf saved_shelf "preset" "ask" saved_preset (body_of 4) [] 8 shelf-IsSound shelf-IsServed
      save_after_rollback saved_preset_live
