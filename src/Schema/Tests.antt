-- ===== src/Schema/Tests.antt =====
-- The theorems on the migrations at concrete metadata.
use rawfile_localpv.Prelude.{◌≡◌, []}
use rawfile_localpv.Prelude.{◌∷◌, String, false}
use rawfile_localpv.Json.{text, num, Json}
use rawfile_localpv.Errors.{ok}
use rawfile_localpv.Node.Examples.{empty_world}
use rawfile_localpv.Schema.Migrations.{schema_version, migrate_to}
use rawfile_localpv.Schema.Versions.{Post, is_migrated, migrate_to-schema_version}
use rawfile_localpv.Prelude.{lookup}

abbrev old_metadata : Json
old_metadata = ("volume_id", text "pvc-1") ∷ ("deleted_at", num 5) ∷ []

migrate_to-schema_version_example :
    Post
      (λ new.
        (schema_version new ≡ ok 8)
        × ((k : String) → is_migrated k ≡ false → lookup k new ≡ lookup k old_metadata))
      (migrate_to old_metadata 8 empty_world)
migrate_to-schema_version_example = migrate_to-schema_version old_metadata 8 empty_world

abbrev new_metadata : Json
new_metadata = ("schema_version", num 9) ∷ []
