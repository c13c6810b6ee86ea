-- ===== src/Node/Reading.antt =====
-- rawfile/utils/rawfile.py: the calls that only read.
use rawfile_localpv.Prelude.{◌≡◌, refl, ◌∙◌, Option, none, some, [], String}
use rawfile_localpv.Errors.{Exception}
use rawfile_localpv.Exec.{Exec, ◌>>=◌, proceed-keeps, or_raise}
use rawfile_localpv.Node.Files.{Node, dir, file, json_file, link, special}
use rawfile_localpv.Node.World.{World, node_at, read_json, read_json_at}
use rawfile_localpv.Node.Metadata.{metadata, metadata_or, or_not_found, meta_file, img_file}

-- A call that leaves the node as it was.
abbrev pub IsReading : {A : Type 0} → Exec World A → Type 0
IsReading m = (w : World) → (m w).1 ≡ w

module _ {A B : Type 0} where
  pub bind-IsReading :
      (m : Exec World A) (f : A → Exec World B)
      → IsReading m
      → ((a : A) → IsReading (f a))
      → IsReading (m >>= f)
  bind-IsReading m f h k w = proceed-keeps (λ s. s ≡ w) f (m w) (h w) (λ a s e. k a s ∙ e)

pub or_raise-IsReading :
    {A : Type 0} → (o : Option A) (e : Exception) → IsReading (or_raise {A = A} o e)
or_raise-IsReading none e w = refl
or_raise-IsReading (some a) e w = refl

pub or_not_found-state : (o : Option Node) (w : World) → (or_not_found (read_json_at o, w) []).1 ≡ w
or_not_found-state none w = refl
or_not_found-state (some dir) w = refl
or_not_found-state (some (file f)) w = refl
or_not_found-state (some (json_file j)) w = refl
or_not_found-state (some (link p)) w = refl
or_not_found-state (some special) w = refl

pub metadata_or-IsReading : (v : String) → IsReading (metadata_or v)
unfolding metadata_or metadata read_json
metadata_or-IsReading v w = or_not_found-state (node_at (meta_file v w) w) w

pub img_file-IsReading : (v : String) → IsReading (img_file v)
unfolding img_file metadata read_json
img_file-IsReading v =
    bind-IsReading (metadata v) (λ meta. _) (λ w. refl)
      (λ meta. bind-IsReading _ _ (λ w. refl) (λ x w. refl))
