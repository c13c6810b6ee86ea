-- ===== src/Node/Loops.antt =====
-- rawfile/utils/rawfile.py: the attaching and detaching of loop devices. What the kernel and its
-- programs do is given: `losetup_j` lists the devices of a file, `setrw`, `free_loop`, `has_node`,
-- `mknod`, `losetup` and `losetup_d` are the programs that are run, over any state of theirs.
use rawfile_localpv.Prelude.{
  ℕ, zero, suc, ◌<◌, ◌≡◌, refl, sym, subst, ◌⊎◌, inl, inr, arith, Bool, Option, none, some, List,
  [], ◌∷◌, String, if◌then◌else◌,
}
use rawfile_localpv.Paths.{FilePath, as_posix}
use rawfile_localpv.Errors.{Exception, Result, ok, err, loop_device_attach, message}
use rawfile_localpv.Exec.{Exec, ◌>>=◌, ◌>>◌, pure}

module _ {S : Type 0} (losetup_j : FilePath → Exec S (List String)) (setrw : String → Exec S Unit)
    (free_loop : Exec S String) (has_node : String → Exec S Bool) (mknod : String → Exec S Unit)
    (losetup : FilePath → Exec S Unit) (losetup_d : String → Exec S Unit) where
  unfoldable pub next_loop : Exec S Unit
  next_loop = free_loop >>= λ loop_file.
      has_node loop_file >>= λ there. if there then pure tt else mknod loop_file

  abbrev use_first : FilePath → List String → Exec S (Option String)
  use_first p [] = next_loop >> losetup p >> pure none
  use_first p (dev ∷ _) = setrw dev >> pure (some dev)

  -- The body of the loop's `try`: a device, or nothing when one has been asked for.
  unfoldable pub attempt : FilePath → Exec S (Option String)
  attempt p = losetup_j p >>= use_first p

  abbrev after_attempt :
      Option Exception
      → Result (Option String) × S
      → (Option Exception → Exec S String)
      → Result String × S
  after_attempt last (ok (some dev), s) again = (ok dev, s)
  after_attempt last (ok none, s) again = again last s
  after_attempt last (err e, s) again = again (some e) s

  abbrev text_of : Option Exception → Option String
  text_of none = none
  text_of (some e) = message e

  -- What is left of the loop, with `n` attempts to make.
  unfoldable pub attempts : ℕ → FilePath → Option Exception → Exec S String
  attempts zero p last s = (err (loop_device_attach (as_posix p) "20" (text_of last)), s)
  attempts (suc n) p last s = after_attempt last (attempt p s) (attempts n p)

  unfoldable pub attach_loop : FilePath → Exec S String
  attach_loop p = attempts 20 p none

  abbrev detach_all : List String → Exec S Unit
  detach_all [] = pure tt
  detach_all (dev ∷ devs) = losetup_d dev >> detach_all devs

  unfoldable pub detach_loops : FilePath → Exec S Unit
  detach_loops p = losetup_j p >>= detach_all

  -- `k` attempts from the state `s` to the state `t` that give no device: each asks for one or fails.
  abbrev pub Fruitless : ℕ → FilePath → S → S → Type 0
  Fruitless zero p s t = s ≡ t
  Fruitless (suc k) p s t =
      (u : S) × ((attempt p s ≡ (ok none, u)) ⊎ ((e : Exception) × (attempt p s ≡ (err e, u))))
      × Fruitless k p u t

  attempts-Fruitless :
      (n k : ℕ) (p : FilePath) (last : Option Exception) (dev : String) (s t u : S)
      → Fruitless k p s t
      → attempt p t ≡ (ok (some dev), u)
      → k < n
      → attempts n p last s ≡ (ok dev, u)
  unfolding attempts
  attempts-Fruitless zero k p last dev s t u f h l = ground (arith, l)
  attempts-Fruitless (suc n) zero p last dev s t u f h l =
      rw (subst (λ x. attempt p x ≡ (ok (some dev), u)) (sym f) h) refl
  attempts-Fruitless (suc n) (suc k) p last dev s t u (v, a, f) h l = elim a [
    | inl e ↦ rw e (attempts-Fruitless n k p last dev v t u f h (omega (arith, l)))
    | inr e ↦ rw e.1 (attempts-Fruitless n k p (some e.0) dev v t u f h (omega (arith, l)))
  ]

  -- The attaching gives the device that is found after fewer than 20 attempts in vain, whether these
  -- asked for a device or failed, in the state that the finding left.
  pub attach_loop-Fruitless :
      (k : ℕ) (p : FilePath) (dev : String) (s t u : S)
      → Fruitless k p s t
      → attempt p t ≡ (ok (some dev), u)
      → k < 20
      → attach_loop p s ≡ (ok dev, u)
  unfolding attach_loop
  attach_loop-Fruitless k p dev s t u f h l = attempts-Fruitless 20 k p none dev s t u f h l
