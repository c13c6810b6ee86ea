-- ===== src/Startup/Moved.antt =====
-- rawfile/utils/volume_manager.py: where the metadata of a volume are while `migrate_metadata_dir` moves them.
use rawfile_localpv.Prelude.{
  ◌≡◌, refl, sym, ap, ◌∙◌, arith, subst, Bool, true, false, ◌||◌, ◌&&◌, Option, none, some, String,
  str_eq, eq_iff, if◌then◌else◌, Bool-cases, inl, inr,
}
use rawfile_localpv.Paths.{FilePath, child, parent, file_name, path_eq, path_eq_refl}
use rawfile_localpv.Errors.{Result, ok, err}
use rawfile_localpv.Exec.{◌>>◌, pure, proceed}
use rawfile_localpv.Node.Files.{Node, put, drop_path, find-put, find-drop_path}
use rawfile_localpv.Node.World.{
  World, with_files, node_at, is_some, is_dir, exists, mkdir_parents, replace,
}
use rawfile_localpv.Node.Metadata.{meta_dir}
use rawfile_localpv.Startup.Keeping.{
  Keeps, Keeps-refl, IsKeeping, bind-IsKeeping, if-IsKeeping, mkdir_parents-IsKeeping,
  replace-IsKeeping,
}
use rawfile_localpv.Startup.Latest.{Ends, Ends-bind, Ends-Keeps}
use rawfile_localpv.Startup.Preflight.{
  move, make_and_move, move_if_there, move_named, move_metadata,
}

abbrev pub old_file : FilePath → String → FilePath
old_file d v = child (child d v) "disk.meta"

-- Whether the folder of `v` in `d` holds metadata.
abbrev pub has : FilePath → String → World → Bool
has d v w = is_some (node_at (old_file d v) w)

Keeps-some :
    (o : Option Node) (w w' : World) (p : FilePath)
    → Keeps w w'
    → file_name p ≡ "disk.meta"
    → node_at p w ≡ o
    → is_some o ≡ true
    → is_some (node_at p w') ≡ true
Keeps-some none w w' p k f e h = cc
Keeps-some (some n) w w' p k f e h = rw (k.kept p n f e) refl

pub Keeps-has :
    (d : FilePath) (v : String) (w w' : World) → Keeps w w' → has d v w ≡ true → has d v w' ≡ true
Keeps-has d v w w' k h = Keeps-some (node_at (old_file d v) w) w w' (old_file d v) k refl refl h

is_dir-is_some : (o : Option Node) → is_dir o ≡ true → is_some o ≡ true
is_dir-is_some none h = cc
is_dir-is_some (some n) h = refl

or_true : (b : Bool) → (b || true) ≡ true
or_true true = refl
or_true false = refl

still :
    (a b c : Bool) (n : Node) (o : Option Node)
    → c ≡ false
    → is_some o ≡ true
    → is_some (if a then some n else if b && c then none else o) ≡ true
still true b c n o e h = refl
still false true c n o e h = rw e h
still false false c n o e h = h

kept_unless :
    (a b c : Bool) (n : Node) (o : Option Node)
    → b ≡ false
    → is_some o ≡ true
    → is_some (if a then some n else if b && c then none else o) ≡ true
kept_unless true b c n o e h = refl
kept_unless false b c n o e h = rw e h

-- The metadata of the volume are in the folder of the metadata or still in the pool.
abbrev pub IsPlaced : FilePath → FilePath → String → World → Type 0
IsPlaced md pool v w = (w.config.metadata_dir ≡ md) × ((has md v w || has pool v w) ≡ true)

abbrev pub IsStored : FilePath → String → World → Type 0
IsStored md v w = (w.config.metadata_dir ≡ md) × (has md v w ≡ true)

module _ (md pool : FilePath) (apart : path_eq pool md ≡ false) where
  pub Keeps-IsStored : (v : String) (w w' : World) → Keeps w w' → IsStored md v w → IsStored md v w'
  Keeps-IsStored v w w' k (c, h) = (ap (λ x. x.metadata_dir) k.same ∙ c, Keeps-has md v w w' k h)

  pub Keeps-IsPlaced :
      (v : String) (w w' : World) → Keeps w w' → IsPlaced md pool v w → IsPlaced md pool v w'
  Keeps-IsPlaced v w w' k (c, h) = (
    ap (λ x. x.metadata_dir) k.same ∙ c,
    ground (arith, h, Keeps-has md v w w' k, Keeps-has pool v w w' k),
  )

  -- What stands in the folder of the metadata is not taken away when `u` is moved.
  moved-has :
      (u v : String) (q : FilePath) (n : Node) (w : World)
      → has md v w ≡ true
      → has md v (with_files (put q n (drop_path (old_file pool u) w.files)) w) ≡ true
  moved-has u v q n w h =
      rw (find-put, find-drop_path)
        (still (path_eq q (old_file md v)) (str_eq u v) (path_eq pool md) n
          (node_at (old_file md v) w) apart h)

  abbrev after : String → FilePath → Node → World → World
  after u q n w = with_files (put q n (drop_path (old_file pool u) w.files)) w

  -- Once `u` has landed, no other volume has lost its metadata.
  after-IsPlaced :
      (u v : String) (q : FilePath) (n : Node) (w : World)
      → has md u (after u q n w) ≡ true
      → IsPlaced md pool v w
      → IsPlaced md pool v (after u q n w)
  after-IsPlaced u v q n w landed (c, h) = (c, placed (has md v w) refl (str_eq u v) refl)
    where
      placed :
          (m : Bool)
          → has md v w ≡ m
          → (b : Bool) → str_eq u v ≡ b
          → (has md v (after u q n w) || has pool v (after u q n w)) ≡ true
      placed true e b f = rw (moved-has u v q n w e) refl
      placed false e true f =
          let g : has md v (after u q n w) ≡ true =
            subst (λ x. has md x (after u q n w) ≡ true) ((eq_iff u v).0 f) landed in
          rw g refl
      placed false e false f =
          let old : has pool v w ≡ true = ground (arith, h, e) in
          let g : has pool v (after u q n w) ≡ true =
            rw (find-put, find-drop_path)
              (kept_unless (path_eq q (old_file pool v)) (str_eq u v) (path_eq pool pool) n
                (node_at (old_file pool v) w) f old) in
          rw g (or_true _)

  -- The move of the metadata of `u`, from a file that is there.
  move-lands :
      (u : String) (P : World → Type 0) (w : World) (n : Node)
      → node_at (old_file pool u) w ≡ some n
      → ((q : FilePath) → has md u (after u q n w) ≡ true → P (after u q n w))
      → Ends P (move (old_file pool u) (old_file md u) w)
  unfolding move replace
  move-lands u P w n e h = dest (is_dir (node_at (old_file md u) w)) refl
    where
      dest :
          (b : Bool)
          → is_dir (node_at (old_file md u) w) ≡ b
          → Ends P (
              if b
              then replace (old_file pool u) (child (old_file md u) "disk.meta") w
              else replace (old_file pool u) (old_file md u) w)
      dest true f =
          let q = child (old_file md u) "disk.meta" in
          rw e (h q (moved-has u u q n w (is_dir-is_some (node_at (old_file md u) w) f)))
      dest false f = rw e (h (old_file md u) (rw (find-put, path_eq_refl (old_file md u)) refl))

  move_meta-Ends :
      (u : String) (P : World → Type 0) (w : World)
      → (has pool u w ≡ false → P w)
      → ((w' : World)
          → Keeps w w'
          → (n : Node) (q : FilePath) → has md u (after u q n w') ≡ true
          → P (after u q n w'))
      → Ends P (move_if_there (old_file pool u) (old_file md u) w)
  unfolding exists
  move_meta-Ends u P w h g = there (node_at (old_file pool u) w) refl
    where
      made :
          (n : Node)
          → node_at (old_file pool u) w ≡ some n
          → (r : Result Unit × World) → Keeps w r.1
          → Ends P (proceed (λ _. move (old_file pool u) (old_file md u)) r)
      made n e (ok x, w') k =
          move-lands u P w' n (k.kept (old_file pool u) n refl e) (λ q l. g w' k n q l)
      made n e (err x, w') k = tt

      there :
          (o : Option Node)
          → node_at (old_file pool u) w ≡ o
          → Ends P (move_if_there (old_file pool u) (old_file md u) w)
      there none e = rw e (h (rw e refl))
      there (some n) e =
          rw e (made n e (mkdir_parents (child md u) w) (mkdir_parents-IsKeeping (child md u) w))

  -- The other two files are no metadata.
  move_other-IsKeeping :
      (src dst : FilePath)
      → str_eq (file_name src) "disk.meta" ≡ false
      → str_eq (file_name dst) "disk.meta" ≡ false
      → IsKeeping (move_if_there src dst)
  unfolding exists move
  move_other-IsKeeping src dst h g =
      bind-IsKeeping (exists src) (λ there. if there then make_and_move src dst else pure tt)
        Keeps-refl
        (λ there.
          if-IsKeeping there (make_and_move src dst) (pure tt)
            (bind-IsKeeping (mkdir_parents (parent dst)) (λ _. move src dst)
              (mkdir_parents-IsKeeping (parent dst))
              (λ _ w. elim (Bool-cases (is_dir (node_at dst w))) [
                | inl y ↦ rw y (replace-IsKeeping src (child dst (file_name src)) h h w)
                | inr y ↦ rw y (replace-IsKeeping src dst h g w)
              ]))
            Keeps-refl)

  -- All three files of `u`: what holds once its metadata are moved holds in the end.
  move_metadata-Ends :
      (u : String) (P : World → Type 0) (w : World)
      → w.config.metadata_dir ≡ md
      → ((w w' : World) → Keeps w w' → P w → P w')
      → Ends P (move_if_there (old_file pool u) (old_file md u) w)
      → Ends P (move_metadata pool u w)
  unfolding meta_dir
  move_metadata-Ends u P w c k h =
      let tmp = move_named pool u "disk.meta.tmp" in
      let lock = move_named pool u "disk.lock" in
      Ends-bind P P (λ _. tmp >> (lock >> pure tt)) (move_named pool u "disk.meta" w)
        (subst (λ x. Ends P (move_if_there (old_file pool u) (old_file x u) w)) (sym c) h)
        (λ _ w p.
          Ends-Keeps P w ((tmp >> (lock >> pure tt)) w)
            (bind-IsKeeping tmp (λ _. lock >> pure tt)
              (λ w. move_other-IsKeeping _ (child (meta_dir u w) "disk.meta.tmp") refl refl w)
              (λ _.
                bind-IsKeeping lock (λ _. pure tt)
                  (λ w. move_other-IsKeeping _ (child (meta_dir u w) "disk.lock") refl refl w)
                  (λ _. Keeps-refl))
              w)
            (λ w' e. k w w' e p))

  pub move_metadata-IsPlaced :
      (u v : String) (w : World)
      → IsPlaced md pool v w
      → Ends (IsPlaced md pool v) (move_metadata pool u w)
  move_metadata-IsPlaced u v w h =
      move_metadata-Ends u (IsPlaced md pool v) w h.0 (Keeps-IsPlaced v) (
        move_meta-Ends u (IsPlaced md pool v) w (λ _. h)
          (λ w' k n q l. after-IsPlaced u v q n w' l (Keeps-IsPlaced v w w' k h)))

  pub move_metadata-IsStored :
      (u : String) (w : World)
      → IsPlaced md pool u w
      → Ends (IsStored md u) (move_metadata pool u w)
  move_metadata-IsStored u w h = move_metadata-Ends u (IsStored md u) w h.0 (Keeps-IsStored u) (
      move_meta-Ends u (IsStored md u) w (λ no. (h.0, ground (arith, h.1, no)))
        (λ w' k n q l. (ap (λ x. x.metadata_dir) k.same ∙ h.0, l)))

  IsStored-IsPlaced : (v : String) (w : World) → IsStored md v w → IsPlaced md pool v w
  IsStored-IsPlaced v w (c, h) = (c, rw h refl)

  pub move_metadata-keeps :
      (u v : String) (w : World) → IsStored md v w → Ends (IsStored md v) (move_metadata pool u w)
  move_metadata-keeps u v w (c, h) = move_metadata-Ends u (IsStored md v) w c (Keeps-IsStored v) (
      move_meta-Ends u (IsStored md v) w (λ _. (c, h))
        (λ w' k n q l.
          (ap (λ x. x.metadata_dir) k.same ∙ c, moved-has u v q n w' (Keeps-has md v w w' k h))))
