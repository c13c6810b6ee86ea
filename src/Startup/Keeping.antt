-- ===== src/Startup/Keeping.antt =====
-- rawfile/utils/rawfile.py: the calls that leave every file of metadata where it is.
use rawfile_localpv.Prelude.{
  ◌≡◌, refl, sym, ◌∙◌, subst, Bool, true, false, Option, none, some, str_eq, if◌then◌else◌,
  Bool-cases, inl, inr, is_empty,
}
use rawfile_localpv.Paths.{FilePath, root, child, parent, file_name, path_eq, path_eq_iff}
use rawfile_localpv.Json.{Json}
use rawfile_localpv.Errors.{Result, ok, err}
use rawfile_localpv.Exec.{Exec, ◌>>=◌, ◌>>◌, pure, proceed-keeps, finally, ends, settle}
use rawfile_localpv.Node.Files.{
  Node, dir, file, json_file, link, special, put, drop_path, find-put, find-drop_path, children,
}
use rawfile_localpv.Node.World.{
  World, with_files, node_at, create, create_at, made, mkdir_parents, replace, replace_at,
  write_json, unlink_at, rmdir_at, unlink, rmdir, is_dir,
}
use rawfile_localpv.Node.Metadata.{
  be_absent, be_absent_at, cp, leave_at, is_cow_supported, write_test, succeeds,
}

-- Whatever stands at a path named `disk.meta` still stands there, and the configuration is the same.
pub record Keeps (w w' : World) : Type 0 where
  pub same : w'.config ≡ w.config
  pub kept :
      (p : FilePath) (n : Node)
      → file_name p ≡ "disk.meta"
      → node_at p w ≡ some n
      → node_at p w' ≡ some n

pub Keeps-refl : (w : World) → Keeps w w
Keeps-refl w = record { same = refl; kept = λ p n h e. e }

pub Keeps-trans : (u v w : World) → Keeps u v → Keeps v w → Keeps u w
Keeps-trans u v w h k = record {
  same = k.same ∙ h.same;
  kept = λ p n f e. k.kept p n f (h.kept p n f e);
}

abbrev pub IsKeeping : {A : Type 0} → Exec World A → Type 0
IsKeeping m = (w : World) → Keeps w (m w).1

module _ {A B : Type 0} where
  pub bind-IsKeeping :
      (m : Exec World A) (f : A → Exec World B)
      → IsKeeping m
      → ((a : A) → IsKeeping (f a))
      → IsKeeping (m >>= f)
  bind-IsKeeping m f h k w =
      proceed-keeps (Keeps w) f (m w) (h w) (λ a s e. Keeps-trans w s (f a s).1 e (k a s))

pub pure-IsKeeping : {A : Type 0} (a : A) → IsKeeping (pure a)
pure-IsKeeping a w = Keeps-refl w

pub if-IsKeeping :
    {A : Type 0} (b : Bool) (m k : Exec World A)
    → IsKeeping m
    → IsKeeping k
    → IsKeeping (if b then m else k)
if-IsKeeping true m k h g = h
if-IsKeeping false m k h g = g

-- A path of another name is not that of metadata.
other_name :
    (p q : FilePath)
    → str_eq (file_name p) "disk.meta" ≡ false
    → file_name q ≡ "disk.meta"
    → path_eq p q ≡ false
other_name p q h f = elim (Bool-cases (path_eq p q)) [
  | inl y ↦
      let same : str_eq (file_name q) "disk.meta" ≡ false =
        subst (λ x. str_eq (file_name x) "disk.meta" ≡ false) ((path_eq_iff p q).0 y) h in
      let no : true ≡ false = subst (λ x. str_eq x "disk.meta" ≡ false) f same in cc
  | inr y ↦ y
]

pub put-Keeps :
    (p : FilePath) (n : Node) (w : World)
    → str_eq (file_name p) "disk.meta" ≡ false
    → Keeps w (with_files (put p n w.files) w)
put-Keeps p n w h = record {
  same = refl;
  kept = λ q m f e. rw find-put (rw (other_name p q h f) e);
}

pub drop_path-Keeps :
    (p : FilePath) (w : World)
    → str_eq (file_name p) "disk.meta" ≡ false
    → Keeps w (with_files (drop_path p w.files) w)
drop_path-Keeps p w h = record {
  same = refl;
  kept = λ q m f e. rw find-drop_path (rw (other_name p q h f) e);
}

-- Nor is a path that nothing stood at.
pub put_new-Keeps :
    (p : FilePath) (n : Node) (w w' : World)
    → node_at p w ≡ none
    → Keeps w w'
    → Keeps w (with_files (put p n w'.files) w')
put_new-Keeps p n w w' h k = record {
  same = k.same;
  kept = λ q m f e. elim (Bool-cases (path_eq p q)) [
    | inl y ↦
        let t : node_at q w ≡ none = subst (λ x. node_at x w ≡ none) ((path_eq_iff p q).0 y) h in
        let no : none ≡ some m = sym t ∙ e in cc
    | inr y ↦ rw find-put (rw y (k.kept q m f e))
  ];
}

create-IsKeeping :
    (p : FilePath) (n : Node) → str_eq (file_name p) "disk.meta" ≡ false → IsKeeping (create p n)
create-IsKeeping p n h w = made (node_at (parent p) w)
  where
    made : (o : Option Node) → Keeps w (create_at o p n w).1
    made none = Keeps-refl w
    made (some dir) = put-Keeps p n w h
    made (some (file f)) = Keeps-refl w
    made (some (json_file j)) = Keeps-refl w
    made (some (link q)) = Keeps-refl w
    made (some special) = Keeps-refl w

pub write_json-IsKeeping :
    (p : FilePath) (j : Json)
    → str_eq (file_name p) "disk.meta" ≡ false
    → IsKeeping (write_json p j)
unfolding write_json
write_json-IsKeeping p j h = create-IsKeeping p (json_file j) h

-- A folder is only made where nothing stands.
pub mkdir_parents-IsKeeping : (p : FilePath) → IsKeeping (mkdir_parents p)
unfolding mkdir_parents
mkdir_parents-IsKeeping root w = Keeps-refl w
mkdir_parents-IsKeeping (child p n) w =
    folder (node_at (child p n) w) refl (mkdir_parents p w) (mkdir_parents-IsKeeping p w)
  where
    folder :
        (o : Option Node)
        → node_at (child p n) w ≡ o
        → (r : Result Unit × World) → Keeps w r.1
        → Keeps w (made o (child p n) w r).1
    folder none e (ok x, w') k = put_new-Keeps (child p n) dir w w' e k
    folder none e (err x, w') k = k
    folder (some x) e r k = Keeps-refl w

replace_at-Keeps :
    (o : Option Node) (p q : FilePath) (w : World)
    → str_eq (file_name p) "disk.meta" ≡ false
    → str_eq (file_name q) "disk.meta" ≡ false
    → Keeps w (replace_at o p q w).1
replace_at-Keeps none p q w h g = Keeps-refl w
replace_at-Keeps (some n) p q w h g =
    let w' = with_files (drop_path p w.files) w in
    Keeps-trans w w' (with_files (put q n w'.files) w') (drop_path-Keeps p w h) (put-Keeps q n w' g)

pub replace-IsKeeping :
    (p q : FilePath)
    → str_eq (file_name p) "disk.meta" ≡ false
    → str_eq (file_name q) "disk.meta" ≡ false
    → IsKeeping (replace p q)
unfolding replace
replace-IsKeeping p q h g w = replace_at-Keeps (node_at p w) p q w h g

unlink_at-Keeps :
    (o : Option Node) (b : Bool) (p : FilePath) (w : World)
    → str_eq (file_name p) "disk.meta" ≡ false
    → Keeps w (unlink_at o b p w).1
unlink_at-Keeps none true p w h = Keeps-refl w
unlink_at-Keeps none false p w h = Keeps-refl w
unlink_at-Keeps (some dir) b p w h = Keeps-refl w
unlink_at-Keeps (some (file f)) b p w h = drop_path-Keeps p w h
unlink_at-Keeps (some (json_file j)) b p w h = drop_path-Keeps p w h
unlink_at-Keeps (some (link q)) b p w h = drop_path-Keeps p w h
unlink_at-Keeps (some special) b p w h = drop_path-Keeps p w h

rmdir_at-Keeps :
    (o : Option Node) (p : FilePath) (w : World)
    → str_eq (file_name p) "disk.meta" ≡ false
    → Keeps w (rmdir_at o p w).1
rmdir_at-Keeps none p w h = Keeps-refl w
rmdir_at-Keeps (some dir) p w h = elim (Bool-cases (is_empty (children p w.files))) [
  | inl y ↦ rw y (drop_path-Keeps p w h)
  | inr y ↦ rw y (Keeps-refl w)
]
rmdir_at-Keeps (some (file f)) p w h = Keeps-refl w
rmdir_at-Keeps (some (json_file j)) p w h = Keeps-refl w
rmdir_at-Keeps (some (link q)) p w h = Keeps-refl w
rmdir_at-Keeps (some special) p w h = Keeps-refl w

pub be_absent-IsKeeping :
    (p : FilePath) → str_eq (file_name p) "disk.meta" ≡ false → IsKeeping (be_absent p)
unfolding be_absent unlink rmdir
be_absent-IsKeeping p h w = absent (node_at p w)
  where
    absent : (o : Option Node) → Keeps w (be_absent_at o p w).1
    absent none = Keeps-refl w
    absent (some dir) = rmdir_at-Keeps (node_at p w) p w h
    absent (some (file f)) = unlink_at-Keeps (node_at p w) false p w h
    absent (some (json_file j)) = unlink_at-Keeps (node_at p w) false p w h
    absent (some (link q)) = unlink_at-Keeps (node_at p w) false p w h
    absent (some special) = Keeps-refl w

cp-IsKeeping :
    (b : Bool) (p q : FilePath) → str_eq (file_name q) "disk.meta" ≡ false → IsKeeping (cp b p q)
unfolding cp
cp-IsKeeping b p q h w = left (w.host.cp b (node_at p w) (node_at q w)).1
  where
    left : (o : Option Node) → Keeps w (leave_at q o w)
    left none = drop_path-Keeps q w h
    left (some n) = put-Keeps q n w h

finally-IsKeeping :
    {A : Type 0} (m : Exec World A) (k : Exec World Unit)
    → IsKeeping m
    → IsKeeping k
    → IsKeeping (finally m k)
finally-IsKeeping {A} m k h g w = ended (m w) (h w)
  where
    settled : (r : Result A) (q : Result Unit × World) → Keeps w q.1 → Keeps w (settle r q).1
    settled r (ok x, s) e = e
    settled r (err x, s) e = e

    ended : (r : Result A × World) → Keeps w r.1 → Keeps w (ends k r).1
    ended (r, s) e = settled r (k s) (Keeps-trans w s (k s).1 e (g s))

-- The test of copies writes nothing but its two files.
pub is_cow_supported-IsKeeping : (p q : FilePath) → IsKeeping (is_cow_supported p q)
unfolding is_cow_supported
is_cow_supported-IsKeeping p q =
    let src = child p ".cow_test_file" in
    let dst = child q ".cow_test_clone" in
    finally-IsKeeping (λ w. succeeds ((write_test src >> cp true src dst) w))
      (be_absent src >> be_absent dst)
      (λ w. copied w ((write_test src >> cp true src dst) w) (
        bind-IsKeeping (write_test src) (λ _. cp true src dst) (tested src refl)
          (λ _. cp-IsKeeping true src dst refl) w))
      (bind-IsKeeping (be_absent src) (λ _. be_absent dst) (be_absent-IsKeeping src refl)
        (λ _. be_absent-IsKeeping dst refl))
  where
    copied : (w : World) (r : Result Unit × World) → Keeps w r.1 → Keeps w (succeeds r).1
    copied w (ok x, s) e = e
    copied w (err x, s) e = e

    tested : (t : FilePath) → str_eq (file_name t) "disk.meta" ≡ false → IsKeeping (write_test t)
    tested t h w = elim (Bool-cases (is_dir (node_at t w))) [
      | inl y ↦ rw y (Keeps-refl w)
      | inr y ↦ rw y (create-IsKeeping t _ h w)
    ]
