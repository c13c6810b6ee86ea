-- ===== src/Volumes/Split.antt =====
-- The splitting of a snapshot's identifier, as rawfile/utils/volume_manager.py does it.
use Prim.Native.Char.{Char, code}
use Prim.Native.String.{String, [], ◌∷◌, ◌++◌}
use Prim.Native.String.append
use rawfile_localpv.Prelude.{
  arith, Bool, false, Option, none, some, ◌==◌, if◌then◌else◌, ◌≡◌, refl, ◌||◌,
}

abbrev pub slash : String → Bool
slash [] = false
slash (c ∷ s) = (code c == b'/') || slash s

abbrev cut : Char → String → Option (String × String) → Option (String × String)
cut c s none = if code c == b'/' then some ([], s) else none
cut c s (some p) = some (c ∷ p.0, p.1)

-- `s.rsplit("/", 1)`, when it gives two parts.
unfoldable pub rsplit_slash : String → Option (String × String)
rsplit_slash [] = none
rsplit_slash (c ∷ s) = cut c s (rsplit_slash s)

-- A text without a separator is not split.
rsplit_slash-none : (s : String) → slash s ≡ false → rsplit_slash s ≡ none
unfolding rsplit_slash
rsplit_slash-none [] h = refl
rsplit_slash-none (c ∷ s) h = rw (rsplit_slash-none s (ground (arith, h))) (ground (arith, h))

-- The identifier of a snapshot, made of a volume's and a name without a separator, splits back.
pub rsplit_slash-join :
    (v n : String) → slash n ≡ false → rsplit_slash (v ++ "/" ++ n) ≡ some (v, n)
unfolding rsplit_slash
rsplit_slash-join [] n h =
    rw (append.nil, append.cons, append.nil) (rw (rsplit_slash-none n h) refl)
rsplit_slash-join (c ∷ v) n h = rw append.cons (rw (rsplit_slash-join v n h) refl)
