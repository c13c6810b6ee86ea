-- ===== src/Mounts/Clearing.antt =====
-- rawfile/bd2fs.py: the teardown of a volume that has been deleted already.
use rawfile_localpv.Prelude.{
  ◌≡◌, refl, ap, ◌∙◌, sym, subst, arith, Bool, true, false, ◌||◌, Option, none, some, List, [], ◌∷◌,
  String, if◌then◌else◌, Bool-cases, inl, inr, is_empty,
}
use rawfile_localpv.Paths.{as_posix, FilePath, path_eq_iff}
use rawfile_localpv.Errors.{Exception, Result, ok, err, not_empty, unknown_file_type}
use rawfile_localpv.Exec.{proceed}
use rawfile_localpv.Node.Files.{
  Node, dir, file, json_file, link, special, drop_path, children, find-drop_path,
}
use rawfile_localpv.Node.World.{World, with_files, node_at, rmdir, unlink, is_some}
use rawfile_localpv.Node.Metadata.{be_absent}
use rawfile_localpv.Mounts.System.{
  System, Programs, on_node, put_node, resolved, get_device_for_mountpoint,
}
use rawfile_localpv.Mounts.Declarative.{is_missing, suppressing_not_found, suppress_not_found}
use rawfile_localpv.Mounts.Volumes.{refuse_mounted, clear_paths, clear_deleted_volume}

-- Nothing stands at any of the paths.
abbrev pub AllAbsent : List FilePath → World → Type 0
AllAbsent [] w = Unit
AllAbsent (p ∷ ps) w = (node_at p w ≡ none) × AllAbsent ps w

-- How a removal of `p` ends: nothing was there, it is removed, or it was refused.
data Removal (p : FilePath) (w : World) : Result Unit × World → Type 0 where
  nothing_there : node_at p w ≡ none → Removal p w (ok tt, w)
  removed : Removal p w (ok tt, with_files (drop_path p w.files) w)
  refused : (e : Exception) → is_missing e ≡ false → Removal p w (err e, w)

rmdir-Removal :
    (b : Bool) (p : FilePath) (w : World)
    → Removal p w (if b then (ok tt, with_files (drop_path p w.files) w) else (err not_empty, w))
rmdir-Removal true p w = removed
rmdir-Removal false p w = refused not_empty refl

be_absent-Removal_at :
    (o : Option Node) (p : FilePath) (w : World) → node_at p w ≡ o → Removal p w (be_absent p w)
unfolding be_absent rmdir unlink
be_absent-Removal_at none p w e = rw e (nothing_there e)
be_absent-Removal_at (some dir) p w e =
    rw e (rw e (rmdir-Removal (is_empty (children p w.files)) p w))
be_absent-Removal_at (some (file f)) p w e = rw e (rw e removed)
be_absent-Removal_at (some (json_file f)) p w e = rw e (rw e removed)
be_absent-Removal_at (some (link f)) p w e = rw e (rw e removed)
be_absent-Removal_at (some special) p w e = rw e (refused (unknown_file_type (as_posix p)) refl)

be_absent-Removal : (p : FilePath) (w : World) → Removal p w (be_absent p w)
be_absent-Removal p w = be_absent-Removal_at (node_at p w) p w refl

-- The second state has no path that the first one lacks.
abbrev IsSmaller : World → World → Type 0
IsSmaller w w' = (q : FilePath) → node_at q w ≡ none → node_at q w' ≡ none

module _ {K : Type 0} where
  -- What a removal of `p` in the course of a clearing leaves, if it does not raise.
  abbrev Cleared : FilePath → System K → Result Unit × System K → Type 0
  Cleared p s (ok _, s') =
      (node_at p s'.node ≡ none) × IsSmaller s.node s'.node × (s'.kernel ≡ s.kernel)
  Cleared p s (err e, s') = Unit

  suppressed-Cleared :
      (p : FilePath) (w : World) (k : K) (r : Result Unit × World)
      → Removal p w r
      → Cleared p (record { node = w; kernel = k }) (suppressing_not_found (put_node k r))
  suppressed-Cleared p w k _ (nothing_there e) = (e, λ q x. x, refl)
  suppressed-Cleared p w k _ removed = (
    rw find-drop_path (ground (arith, path_eq_iff p p)),
    λ q e. rw find-drop_path (ground (arith, e)),
    refl,
  )
  suppressed-Cleared p w k _ (refused e f) = rw f tt

  clear_one-Cleared :
      (p : FilePath) (s : System K) → Cleared p s (suppress_not_found (on_node (be_absent p)) s)
  clear_one-Cleared p s =
      suppressed-Cleared p s.node s.kernel (be_absent p s.node) (be_absent-Removal p s.node)

  -- A whole clearing: all paths are gone after it, unless it raises.
  abbrev AllCleared : List FilePath → System K → Result Unit × System K → Type 0
  AllCleared ps s (ok _, s') =
      AllAbsent ps s'.node × IsSmaller s.node s'.node × (s'.kernel ≡ s.kernel)
  AllCleared ps s (err e, s') = Unit

module _ {K : Type 0} (pr : Programs K) where
  AllCleared-cons :
      (p : FilePath) (ps : List FilePath) (s s' : System K) (r : Result Unit × System K)
      → (node_at p s'.node ≡ none) × IsSmaller s.node s'.node × (s'.kernel ≡ s.kernel)
      → AllCleared ps s' r
      → AllCleared (p ∷ ps) s r
  AllCleared-cons p ps s s' (ok _, t) c d = ((d.1 p c.0, d.0), (λ q e. d.1 q (c.1 q e)), d.2 ∙ c.2)
  AllCleared-cons p ps s s' (err e, t) c d = tt

  clear_rest-AllCleared :
      (p : FilePath) (ps : List FilePath) (s : System K) (r : Result Unit × System K)
      → Cleared p s r
      → ((s' : System K) → AllCleared ps s' (clear_paths pr ps s'))
      → AllCleared (p ∷ ps) s (proceed (λ _. clear_paths pr ps) r)
  clear_rest-AllCleared p ps s (ok _, s') c k =
      AllCleared-cons p ps s s' (clear_paths pr ps s') c (k s')
  clear_rest-AllCleared p ps s (err e, s') c k = tt

  clear_paths-AllCleared :
      (ps : List FilePath) (s : System K) → AllCleared ps s (clear_paths pr ps s)
  unfolding clear_paths
  clear_paths-AllCleared [] s = (tt, λ q e. e, refl)
  clear_paths-AllCleared (p ∷ ps) s =
      clear_rest-AllCleared p ps s (suppress_not_found (on_node (be_absent p)) s)
        (clear_one-Cleared p s) (clear_paths-AllCleared ps)

  -- Something is mounted at one of the paths.
  abbrev pub some_mounted : List FilePath → System K → Bool
  some_mounted [] s = false
  some_mounted (p ∷ ps) s = is_some (get_device_for_mountpoint pr p s) || some_mounted ps s

  refuse_mounted-none :
      (v : String) (ms : List FilePath) (s : System K)
      → some_mounted ms s ≡ false
      → refuse_mounted pr v ms s ≡ (ok tt, s)
  unfolding refuse_mounted
  refuse_mounted-none v [] s e = refl
  refuse_mounted-none v (p ∷ ps) s e =
      elim (Bool-cases (is_some (get_device_for_mountpoint pr p s))) [
        | inl t ↦ ground (arith, t, e)
        | inr f ↦ rw f (refuse_mounted-none v ps s (ground (arith, f, e)))
      ]

  -- The call was refused, and nothing was changed.
  abbrev pub IsRefused : System K → Result Unit × System K → Type 0
  IsRefused s (ok _, s') = ⊥
  IsRefused s (err e, s') = s' ≡ s

  refuse_mounted-IsRefused :
      (v : String) (ms : List FilePath) (s : System K)
      → some_mounted ms s ≡ true
      → IsRefused s (refuse_mounted pr v ms s)
  unfolding refuse_mounted
  refuse_mounted-IsRefused v [] s e = ground (arith, e)
  refuse_mounted-IsRefused v (p ∷ ps) s e =
      elim (Bool-cases (is_some (get_device_for_mountpoint pr p s))) [
        | inl t ↦ rw t refl
        | inr f ↦ rw f (refuse_mounted-IsRefused v ps s (ground (arith, f, e)))
      ]

  proceed-IsRefused :
      (f : Unit → System K → Result Unit × System K) (s : System K) (r : Result Unit × System K)
      → IsRefused s r
      → IsRefused s (proceed f r)
  proceed-IsRefused f s (ok _, s') h = absurd h
  proceed-IsRefused f s (err e, s') h = h

  -- What a teardown leaves, where something is still mounted and where nothing is.
  abbrev pub IsTornDown : Bool → List FilePath → System K → Result Unit × System K → Type 0
  IsTornDown true ps s r = IsRefused s r
  IsTornDown false ps s r = AllCleared ps s r

  clear_deleted_volume-IsTornDown_at :
      (b : Bool) (v : String) (ms ps : List FilePath) (s : System K)
      → some_mounted ms s ≡ b
      → IsTornDown b ps s (clear_deleted_volume pr v ms ps s)
  unfolding clear_deleted_volume
  clear_deleted_volume-IsTornDown_at true v ms ps s e =
      proceed-IsRefused (λ _. clear_paths pr ps) s (refuse_mounted pr v ms s)
        (refuse_mounted-IsRefused v ms s e)
  clear_deleted_volume-IsTornDown_at false v ms ps s e =
      rw (refuse_mounted-none v ms s e) (clear_paths-AllCleared ps s)

  -- The teardown of a volume that has been deleted is refused, and changes nothing, while something is
  -- mounted at one of the mount points. Otherwise it leaves the mounts alone and adds no path, and
  -- when it returns normally nothing stands at any of its paths.
  pub clear_deleted_volume-IsTornDown :
      (v : String) (ms ps : List FilePath) (s : System K)
      → IsTornDown (some_mounted ms s) ps s (clear_deleted_volume pr v ms ps s)
  clear_deleted_volume-IsTornDown v ms ps s =
      clear_deleted_volume-IsTornDown_at (some_mounted ms s) v ms ps s refl

  is_some-resolved :
      (w w' : World) (o : Option FilePath) → is_some (resolved pr w' o) ≡ is_some (resolved pr w o)
  is_some-resolved w w' none = refl
  is_some-resolved w w' (some d) = refl

  some_mounted-node :
      (ms : List FilePath) (w w' : World) (k : K)
      → some_mounted ms (record { node = w'; kernel = k })
        ≡ some_mounted ms (record { node = w; kernel = k })
  unfolding get_device_for_mountpoint
  some_mounted-node [] w w' k = refl
  some_mounted-node (p ∷ ps) w w' k =
      rw (is_some-resolved w w' (pr.findmnt p k)) (rw (some_mounted-node ps w w' k) refl)

  some_mounted-eq :
      (ms : List FilePath) (s s' : System K)
      → s'.kernel ≡ s.kernel
      → some_mounted ms s' ≡ some_mounted ms s
  some_mounted-eq ms s s' e =
      ap (λ k. some_mounted ms (record { node = s'.node; kernel = k })) e
      ∙ some_mounted-node ms s.node s'.node s.kernel

  clear_paths-absent :
      (ps : List FilePath) (s : System K) → AllAbsent ps s.node → clear_paths pr ps s ≡ (ok tt, s)
  unfolding clear_paths be_absent
  clear_paths-absent [] s a = refl
  clear_paths-absent (p ∷ ps) s a = rw a.0 (clear_paths-absent ps s a.1)

  -- The teardown of a deleted volume can be repeated: one that returned normally returns normally again
  -- and changes nothing.
  pub clear_deleted_volume_twice :
      (v : String) (ms ps : List FilePath) (s s' : System K)
      → some_mounted ms s ≡ false
      → clear_deleted_volume pr v ms ps s ≡ (ok tt, s')
      → clear_deleted_volume pr v ms ps s' ≡ (ok tt, s')
  unfolding clear_deleted_volume
  clear_deleted_volume_twice v ms ps s s' e h =
      let t =
        subst (AllCleared ps s) (sym (rw (refuse_mounted-none v ms s e) refl) ∙ h)
          (clear_paths-AllCleared ps s) in
      rw (refuse_mounted-none v ms s' (some_mounted-eq ms s s' t.2 ∙ e))
        (clear_paths-absent ps s' t.0)
