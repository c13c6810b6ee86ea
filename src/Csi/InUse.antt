-- ===== src/Csi/InUse.antt =====
-- rawfile/utils/volume_manager.py and rawfile/rawfile_servicer.py: DeleteVolume of a volume that is in use.
use rawfile_localpv.Prelude.{
  ℕ, ◌≡◌, refl, ap, ◌∙◌, Bool, true, false, List, ◌∷◌, String, if◌then◌else◌,
}
use rawfile_localpv.Paths.{FilePath}
use rawfile_localpv.Json.{Json}
use rawfile_localpv.Errors.{Result, ok, err, volume_in_use}
use rawfile_localpv.Exec.{Exec, proceed, pure}
use rawfile_localpv.Node.World.{World, exists, read_json}
use rawfile_localpv.Node.Metadata.{
  metadata, metadata_or, img_file, img_size, pool_of, get_volume_path, attached_loops,
}
use rawfile_localpv.Node.Reading.{IsReading, bind-IsReading, metadata_or-IsReading}
use rawfile_localpv.Volumes.Destroy.{delete_present, delete_volume}
use rawfile_localpv.Csi.Deletion.{refuse_in_use, delete_volume_call}

-- What follows a call that changed nothing changes nothing, if it changes nothing in this state.
proceed_at :
    {A B : Type 0} (f : A → Exec World B) (x : Result A × World) {w : World}
    → x.1 ≡ w
    → ((a : A) → (f a w).1 ≡ w)
    → (proceed f x).1 ≡ w
proceed_at f (ok a, u) q h = ap (λ s. (f a s).1) q ∙ h a
proceed_at f (err e, u) q h = q

img_size-IsReading : (v : String) → IsReading (img_size v)
unfolding img_size metadata read_json
img_size-IsReading v =
    bind-IsReading (metadata v) (λ meta. _) (λ w. refl)
      (λ meta. bind-IsReading _ _ (λ w. refl) (λ x w. refl))

refuse_in_use-state : (r : Result ℕ × World) → (refuse_in_use r).1 ≡ r.1
refuse_in_use-state (ok n, w) = refl
refuse_in_use-state (err (volume_in_use v), w) = refl
refuse_in_use-state (err e, w) = refl

module _ (v dev : String) (devs : List String) (image : FilePath) (w : World)
    (i : img_file v w ≡ (ok image, w))
    (l : w.host.losetup_j (w.host.resolve image w.files) ≡ dev ∷ devs) where
  delete_present-state : (meta : Json) → (delete_present v meta w).1 ≡ w
  unfolding attached_loops
  delete_present-state meta =
      rw i (proceed_at _ (img_size v w) (img_size-IsReading v w) (λ size. rw l refl))

  present-state : (b : Bool) (meta : Json) → ((if b then delete_present v meta else pure 0) w).1 ≡ w
  present-state true meta = delete_present-state meta
  present-state false meta = refl

  -- While the image that a volume's metadata name is attached to a loop device, by the path that its links
  -- lead to, DeleteVolume changes nothing on the node, whatever the metadata and the files are like.
  pub delete_volume_call-attached : (delete_volume_call v w).1 ≡ w
  unfolding delete_volume_call delete_volume pool_of get_volume_path exists
  delete_volume_call-attached =
      refuse_in_use-state (delete_volume v w)
      ∙ proceed_at _ (metadata_or v w) (metadata_or-IsReading v w) (λ meta.
        proceed_at _ (pool_of meta w) refl
          (λ pool. proceed_at _ (get_volume_path pool v w) refl (λ d. present-state _ meta)))
