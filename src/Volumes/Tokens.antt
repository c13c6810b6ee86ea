-- ===== src/Volumes/Tokens.antt =====
-- rawfile/utils/snapshot_manager.py: the token of the next page.
use rawfile_localpv.Prelude.{
  ℕ, zero, suc, ◌+◌, ◌<◌, ◌≤◌, ◌≡◌, refl, ap, ◌∙◌, arith, Bool, false, ◌&&◌, not, Option, none,
  some, List, [], ◌∷◌, length, is_empty, take, drop, map, if◌then◌else◌, ltb, lt→ltb, ltb→lt,
  length-drop, Bool-cases, inl, inr,
}
use rawfile_localpv.Node.World.{World}
use rawfile_localpv.Volumes.Snapshots.{Snapshot}
use rawfile_localpv.Volumes.Paging.{
  SnapFile, snapshot_of, scan, page, scan-take-drop, scan-idx_full, scan-idx_short,
}

length-map-take :
    {A B : Type 0} (f : A → B) (m : ℕ) (xs : List A)
    → m ≤ length xs
    → length (map f (take m xs)) ≡ m
length-map-take f zero xs h = refl
length-map-take f (suc m) [] h = omega (arith, h)
length-map-take f (suc m) (x ∷ xs) h = ap suc (length-map-take f m xs (omega (arith, h)))

is_empty-no : {A : Type 0} (m : ℕ) (xs : List A) → length xs ≡ suc m → is_empty xs ≡ false
is_empty-no m [] h = absurd (omega (arith, h))
is_empty-no m (x ∷ xs) h = refl

-- The token, of whatever the loop has found.
abbrev token_of : ℕ → ℕ → ℕ → Bool → ℕ → Option ℕ
token_of offset found files none_found last =
    if ltb 0 offset && not none_found && ltb (last + 1) files then some (offset + found) else none

token_of-some :
    (offset found files : ℕ) (e : Bool) (last : ℕ)
    → 0 < offset
    → e ≡ false
    → last + 1 < files
    → token_of offset found files e last ≡ some (offset + found)
token_of-some offset found files e last o f h =
    rw (f, lt→ltb 0 offset o, lt→ltb (last + 1) files h) refl

token_of-none :
    (offset found files : ℕ) (e : Bool) (last : ℕ)
    → files ≤ last + 1
    → token_of offset found files e last ≡ none
token_of-none offset found files e last h = ground (arith, h)

module _ (n j : ℕ) (temporary : Bool) (files : List SnapFile) (w : World) where
  abbrev found : List Snapshot × ℕ
  found = scan (suc n) (suc j) none temporary w 0 0 files

  found-eq : found.0 ≡ map (snapshot_of temporary w) (take (suc j) (drop (suc n) files))
  found-eq =
      scan-take-drop (suc n) (suc j) temporary w j (suc n) 0 0 files (omega arith) (omega arith)

  more :
      suc n + suc j < length files
      → (page (some (suc n)) (some (suc j)) none temporary files w).next_token
        ≡ some (suc n + suc j)
  unfolding page
  more h =
      let count : length found.0 ≡ suc j =
        ap length found-eq
        ∙ length-map-take (snapshot_of temporary w) (suc j) (drop (suc n) files)
            (omega (arith, h, length-drop (suc n) files)) in
      let last : found.1 ≡ suc n + j =
        scan-idx_full (suc n) (suc j) temporary w j (suc n) 0 0 files (omega arith) (omega arith)
          (omega (arith, h))
        ∙ omega arith in
      token_of-some (suc n) (length found.0) (length files) (is_empty found.0) found.1 (omega arith)
        (is_empty-no j found.0 count) (omega (arith, h, last))
      ∙ ap (λ m. some (suc n + m)) count

  no_more :
      length files ≤ suc n + suc j
      → (page (some (suc n)) (some (suc j)) none temporary files w).next_token ≡ none
  unfolding page
  no_more h =
      token_of-none (suc n) (length found.0) (length files) (is_empty found.0) found.1
        (elim (Bool-cases (ltb (length files) (suc n + suc j))) [
          | inl y ↦
              let s =
                scan-idx_short (suc n) (suc j) temporary w j (suc n) 0 0 files (omega arith)
                  (omega arith) (ltb→lt (length files) (suc n + suc j) y) in
              omega (arith, s)
          | inr y ↦
              let s =
                scan-idx_full (suc n) (suc j) temporary w j (suc n) 0 0 files (omega arith)
                  (omega arith) (ground (arith, y)) in
              omega (arith, s, h)
        ])

-- A page from an offset on has the token of the place where it ends, if there are files behind it,
-- and none otherwise.
pub page-next_token :
    (n j : ℕ) (temporary : Bool) (files : List SnapFile) (w : World)
    → (page (some (suc n)) (some (suc j)) none temporary files w).next_token
      ≡ (if ltb (suc n + suc j) (length files) then some (suc n + suc j) else none)
page-next_token n j temporary files w = elim (Bool-cases (ltb (suc n + suc j) (length files))) [
  | inl y ↦ rw y (more n j temporary files w (ltb→lt _ _ y))
  | inr y ↦ rw y (no_more n j temporary files w (ground (arith, y)))
]
