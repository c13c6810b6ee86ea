-- ===== src/Internal/InPool.antt =====
-- rawfile/internal_svc.py: the volumes that GetVolumesStat tells of.
use rawfile_localpv.Prelude.{
  ◌≡◌, refl, arith, true, false, Option, none, some, List, [], ◌∷◌, ◌++◌, String, Dict, lookup,
  if◌then◌else◌, str_eq, eq_iff,
}
use rawfile_localpv.Json.{Value, null, bool, num, text, path, Json}
use rawfile_localpv.Errors.{ok, err, key_error}
use rawfile_localpv.Exec.{◌>>=◌, pure, lift}
use rawfile_localpv.Node.World.{World}
use rawfile_localpv.Node.Metadata.{get_item, item, metadata_or}
use rawfile_localpv.Schema.Versions.{Post, Post-proceed, Post-bind, Post-if}
use rawfile_localpv.Volumes.Destroy.{VolumeStats, get_volume_stats, list_all_volumes}
use rawfile_localpv.Internal.Stats.{
  VolumeStat, volume_stat, is_text, is_asked_for, add_stat, volume_round, volume_rounds,
  get_volumes_stat,
}

is_text-eq : (s : String) (v : Value) → is_text s v ≡ true → v ≡ text s
is_text-eq s (text t) e = ground (arith, e, eq_iff t s)
is_text-eq s null e = ground (arith, e)
is_text-eq s (bool b) e = ground (arith, e)
is_text-eq s (num b) e = ground (arith, e)
is_text-eq s (path b) e = ground (arith, e)

abbrev pub IsIn : String → VolumeStat → Type 0
IsIn pool s = s.storage_pool ≡ text pool

-- All volumes that are told of are in the pool.
abbrev pub AllIn : String → Dict VolumeStat → Type 0
AllIn pool [] = Unit
AllIn pool ((v, s) ∷ d) = (s.name ≡ v) × IsIn pool s × AllIn pool d

item-storage_pool :
    (pool : String) (o : Option Value) (w : World)
    → is_text pool (elim o [ none ↦ null | some x ↦ x ]) ≡ true
    → Post
        (λ v. v ≡ text pool)
        (lift (elim o [ none ↦ err (key_error "storage_pool") | some x ↦ ok x ]) w)
item-storage_pool pool none w e = tt
item-storage_pool pool (some v) w e = is_text-eq pool v e

volume_stat-IsIn :
    (pool v : String) (meta : Json) (stats : VolumeStats) (w : World)
    → is_text pool (get_item null "storage_pool" meta) ≡ true
    → Post (λ s. (s.name ≡ v) × IsIn pool s) (volume_stat v meta stats w)
volume_stat-IsIn pool v meta stats w e = Post-proceed _ _ (lift (item "size" meta) w) (λ size w.
    Post-proceed _ _ (lift (item "thin_provision" meta) w) (λ thin w.
      Post-proceed _ _ (lift (item "ready" meta) w) (λ ready w.
        Post-proceed _ _ (lift (item "created_at" meta) w) (λ created w.
          Post-bind (λ x. x ≡ text pool) _ _ (lift (item "storage_pool" meta) w)
            (item-storage_pool pool (lookup "storage_pool" meta) w e)
            (λ x w h. Post-proceed _ _ (lift (item "img_file" meta) w) (λ image w. (refl, h)))))))

add_stat-AllIn :
    (pool v : String) (meta : Json) (o : Option VolumeStats) (w : World)
    → is_text pool (get_item null "storage_pool" meta) ≡ true
    → Post (AllIn pool) (add_stat v meta o w)
add_stat-AllIn pool v meta none w e = tt
add_stat-AllIn pool v meta (some stats) w e =
    Post-bind (λ s. (s.name ≡ v) × IsIn pool s) _ _ (volume_stat v meta stats w)
      (volume_stat-IsIn pool v meta stats w e) (λ s w h. (h.0, h.1, tt))

asked_for-pool :
    (pool : String) (meta : Json)
    → str_eq pool "" ≡ false
    → is_asked_for pool meta ≡ true
    → is_text pool (get_item null "storage_pool" meta) ≡ true
asked_for-pool pool meta n e = ground (arith, n, e)

volume_round-AllIn :
    (pool v : String) (w : World)
    → str_eq pool "" ≡ false
    → Post (AllIn pool) (volume_round pool v w)
volume_round-AllIn pool v w n = Post-proceed _ _ (metadata_or v w) (λ meta w.
    Post-if (AllIn pool) (is_asked_for pool meta) (get_volume_stats v >>= add_stat v meta) (pure [])
      w
      (λ e.
        Post-proceed _ (add_stat v meta) (get_volume_stats v w)
          (λ o w. add_stat-AllIn pool v meta o w (asked_for-pool pool meta n e)))
      (λ e. tt))

append-AllIn :
    (pool : String) (a b : Dict VolumeStat) → AllIn pool a → AllIn pool b → AllIn pool (a ++ b)
append-AllIn pool [] b h k = k
append-AllIn pool ((v, s) ∷ a) b h k = (h.0, h.1, append-AllIn pool a b h.2 k)

volume_rounds-AllIn :
    (pool : String) (vs : List String) (w : World)
    → str_eq pool "" ≡ false
    → Post (AllIn pool) (volume_rounds pool vs w)
unfolding volume_rounds
volume_rounds-AllIn pool [] w n = tt
volume_rounds-AllIn pool (v ∷ vs) w n =
    Post-bind (AllIn pool) _ _ (volume_round pool v w) (volume_round-AllIn pool v w n) (λ here w h.
      Post-bind (AllIn pool) _ _ (volume_rounds pool vs w) (volume_rounds-AllIn pool vs w n)
        (λ rest w k. append-AllIn pool here rest h k))

-- A request for the volumes of a pool, for all of them or a given one, is answered with volumes whose
-- metadata name that pool, each under its own name.
pub get_volumes_stat-AllIn :
    (volume_name pool : String) (w : World)
    → str_eq pool "" ≡ false
    → Post (AllIn pool) (get_volumes_stat volume_name pool w)
unfolding get_volumes_stat
get_volumes_stat-AllIn volume_name pool w n =
    Post-proceed _ (volume_rounds pool)
      ((if str_eq volume_name "" then list_all_volumes else pure (volume_name ∷ [])) w)
      (λ vs w. volume_rounds-AllIn pool vs w n)
