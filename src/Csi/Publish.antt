-- ===== src/Csi/Publish.antt =====
-- rawfile/rawfile_servicer.py: the publishing of a block device, a link to the staged device.
use rawfile_localpv.Prelude.{◌≡◌, refl, none, some}
use rawfile_localpv.Paths.{FilePath, child, parent, path_eq_refl}
use rawfile_localpv.Errors.{ok}
use rawfile_localpv.Exec.{Exec}
use rawfile_localpv.Node.Files.{dir, link, put, drop_path, find-put_self, find-drop_path}
use rawfile_localpv.Node.World.{World, with_files, node_at, unlink}
use rawfile_localpv.Node.Metadata.{be_absent, be_symlink}

unfoldable pub node_publish_volume : FilePath → FilePath → Exec World Unit
node_publish_volume target_path staging_path = be_symlink target_path (child staging_path "dev")

unfoldable pub node_unpublish_volume : FilePath → Exec World Unit
node_unpublish_volume target_path = be_absent target_path

abbrev pub published : FilePath → FilePath → World → World
published target staging w = with_files (put target (link (child staging "dev")) w.files) w

abbrev pub unpublished : FilePath → FilePath → World → World
unpublished target staging w =
    with_files (drop_path target (put target (link (child staging "dev")) w.files)) w

publish-eq :
    (target staging : FilePath) (w : World)
    → node_at target w ≡ none
    → node_at (parent target) w ≡ some dir
    → node_publish_volume target staging w ≡ (ok tt, published target staging w)
unfolding node_publish_volume be_symlink be_absent
publish-eq target staging w f d = rw f (rw d refl)

publish_again :
    (target staging : FilePath) (w : World)
    → node_publish_volume target staging (published target staging w)
      ≡ (ok tt, published target staging w)
unfolding node_publish_volume be_symlink
publish_again target staging w =
    rw (find-put_self target (link (child staging "dev")) w.files)
      (rw (path_eq_refl (child staging "dev")) refl)

unpublish-eq :
    (target staging : FilePath) (w : World)
    → node_unpublish_volume target (published target staging w)
      ≡ (ok tt, unpublished target staging w)
unfolding node_unpublish_volume be_absent unlink
unpublish-eq target staging w =
    let e = find-put_self target (link (child staging "dev")) w.files in rw e (rw e refl)

gone :
    (target staging : FilePath) (w : World) → node_at target (unpublished target staging w) ≡ none
gone target staging w = rw find-drop_path (rw (path_eq_refl target) refl)

unpublish_again :
    (target staging : FilePath) (w : World)
    → node_unpublish_volume target (unpublished target staging w)
      ≡ (ok tt, unpublished target staging w)
unfolding node_unpublish_volume be_absent
unpublish_again target staging w = rw (gone target staging w) refl

-- At a path where nothing stands, in a folder that is there, a device is published as a link to the
-- staged device; a repeated publishing succeeds and changes nothing. The unpublishing removes the
-- link, and a repeated one succeeds and changes nothing either.
pub publish_unpublish :
    (target staging : FilePath) (w : World)
    → node_at target w ≡ none
    → node_at (parent target) w ≡ some dir
    → let w1 = published target staging w in
      let w2 = unpublished target staging w in
      (node_publish_volume target staging w ≡ (ok tt, w1))
      × (node_at target w1 ≡ some (link (child staging "dev")))
      × (node_publish_volume target staging w1 ≡ (ok tt, w1))
      × (node_unpublish_volume target w1 ≡ (ok tt, w2))
      × (node_at target w2 ≡ none)
      × (node_unpublish_volume target w2 ≡ (ok tt, w2))
publish_unpublish target staging w f d = (
  publish-eq target staging w f d,
  find-put_self target (link (child staging "dev")) w.files,
  publish_again target staging w,
  unpublish-eq target staging w,
  gone target staging w,
  unpublish_again target staging w,
)
