-- ===== src/Internal/Transfer.antt =====
-- rawfile/internal_svc.py: the loop of GetRawFile, which reads the image of a snapshot in parts. A part is
-- given by its offset in the image and its length. What becomes of the parts is not modelled.
use rawfile_localpv.Prelude.{
  ℕ, zero, suc, ◌+◌, ◌-◌, ◌*◌, ◌≤◌, ◌≡◌, refl, arith, min, List, [], ◌∷◌, if◌then◌else◌, Bool-cases,
  inl, inr, ltb,
}

abbrev pub mebibyte : ℕ
mebibyte = 1024 * 1024

-- `while chunk := f.read(1024 * 1024)`, with `rest` bytes left from the offset on.
unfoldable pub read_chunks : ℕ → ℕ → ℕ → List (ℕ × ℕ)
read_chunks zero offset rest = []
read_chunks (suc fuel) offset rest =
    let n = min mebibyte rest in
    let later = read_chunks fuel (offset + n) (rest - n) in
    if ltb 0 rest then (offset, n) ∷ later else []

-- The parts follow one another from the offset to the end of what is left; each has a byte at least and
-- a mebibyte at most.
abbrev pub IsChunking : ℕ → ℕ → List (ℕ × ℕ) → Type 0
IsChunking offset rest [] = rest ≡ 0
IsChunking offset rest ((o, n) ∷ cs) =
    (o ≡ offset) × (1 ≤ n) × (n ≤ mebibyte) × (n ≤ rest) × IsChunking (offset + n) (rest - n) cs

-- As many rounds as there are bytes are enough to read a file, and what is read are parts of at least a
-- byte and at most a mebibyte that follow one another and cover the file.
pub read_chunks-IsChunking :
    (fuel offset rest : ℕ) → rest ≤ fuel → IsChunking offset rest (read_chunks fuel offset rest)
unfolding read_chunks
read_chunks-IsChunking zero offset rest h = omega (arith, h)
read_chunks-IsChunking (suc fuel) offset rest h = elim (Bool-cases (ltb 0 rest)) [
  | inl e ↦ rw e (
    refl,
    ground (arith, e),
    ground arith,
    ground arith,
    read_chunks-IsChunking fuel _ _ (ground (arith, e, h)),
  )
  | inr e ↦ rw e (ground (arith, e))
]
