-- ===== src/Json.antt =====
-- The values that the program stores as JSON, in the metadata of a volume and in a task's arguments.
-- A path is stored as its text, and is kept as a path here. Times are numbers of microseconds.
use rawfile_localpv.Prelude.{ℕ, Bool, String, Dict}
use rawfile_localpv.Paths.{FilePath}

pub data Value : Type 0 where
  null : Value
  bool : Bool → Value
  num : ℕ → Value
  text : String → Value
  path : FilePath → Value

abbrev pub Json : Type 0
Json = Dict Value
