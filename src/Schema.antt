-- ===== src/Schema.antt =====
-- rawfile/volume_schema.py: the migrations of a volume's metadata.
pub mod Migrations
pub mod Versions
pub mod Tests
