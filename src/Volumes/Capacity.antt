-- ===== src/Volumes/Capacity.antt =====
-- rawfile/utils/storage_pool.py: the capacity of a storage pool. Python computes a percentage as a
-- floating-point number; here it is exact, so that capacities are numbers of hundredths of a byte.
use rawfile_localpv.Prelude.{
  ℕ, ◌+◌, ◌-◌, ◌*◌, ◌≤◌, ◌≡◌, ◌⊎◌, ◌↔◌, inl, inr, arith, Option, none, some, [], ◌∷◌, String, Dict,
  lookup, if◌then◌else◌, str_eq, ℤ, pos, negsuc, pos_part, ◌+ℤ◌, ◌-ℤ◌, ◌≤ℤ◌, leb_ℤ, +ℤ_parts,
  -ℤ_parts,
}
use rawfile_localpv.Errors.{key_error, file_not_found}
use rawfile_localpv.Exec.{Exec, ◌>>=◌, pure, raise, gets, or_raise}
use rawfile_localpv.Paths.{FilePath}
use rawfile_localpv.Node.Files.{Node}
use rawfile_localpv.Node.World.{
  World, node_at, StoragePool, ReservedCapacity, percent, byte_size, ReservedCapacityMode, plain,
  subtract_from_total, StatVfs,
}
use rawfile_localpv.Volumes.Destroy.{VolumeStats, get_volumes_stats_by_pool}

unfoldable pub plain_reserved_capacity_handler : ℕ → ReservedCapacity → ℤ
plain_reserved_capacity_handler disk_total_size (percent p) = pos (disk_total_size * p)
plain_reserved_capacity_handler disk_total_size (byte_size b) = pos (100 * b)

unfoldable pub subtract_from_total_reserved_capacity_handler : ℕ → ReservedCapacity → ℤ
subtract_from_total_reserved_capacity_handler disk_total_size (percent p) =
    pos (100 * disk_total_size) -ℤ pos (disk_total_size * p)
subtract_from_total_reserved_capacity_handler disk_total_size (byte_size b) =
    pos (100 * disk_total_size) -ℤ pos (100 * b)

unfoldable pub reserved_capacity_handlers : ReservedCapacityMode → ℕ → ReservedCapacity → ℤ
reserved_capacity_handlers plain = plain_reserved_capacity_handler
reserved_capacity_handlers subtract_from_total = subtract_from_total_reserved_capacity_handler

abbrev min_ℤ : ℤ → ℤ → ℤ
min_ℤ a b = if leb_ℤ a b then a else b

-- `max(min(disk_total_size - reserved_capacity - volumes_physical_size, disk_free_size), 0)`
unfoldable pub capacity_left : ℕ → ℤ → ℕ → ℕ → ℕ
capacity_left disk_total_size reserved_capacity volumes_physical_size disk_free_size = pos_part (
    min_ℤ (pos (100 * disk_total_size) -ℤ reserved_capacity -ℤ pos (100 * volumes_physical_size))
      (pos (100 * disk_free_size)))

abbrev pub physical_sizes : Dict VolumeStats → ℕ
physical_sizes [] = 0
physical_sizes ((_, s) ∷ d) = s.physical_size + physical_sizes d

abbrev pub pool_name : Option String → World → String
pool_name none w = w.config.default_pool
pool_name (some s) w = if str_eq s "" then w.config.default_pool else s

abbrev capacity_of : StatVfs → StoragePool → ℕ → ℕ
capacity_of stats pool volumes_physical_size =
    let disk_total_size = stats.f_frsize * stats.f_blocks in
    capacity_left disk_total_size
      (reserved_capacity_handlers pool.reserved_capacity_mode disk_total_size
        pool.reserved_capacity)
      volumes_physical_size (stats.f_frsize * stats.f_bavail)

abbrev pub statvfs_at : Option Node → FilePath → Exec World StatVfs
statvfs_at none p = raise file_not_found
statvfs_at (some _) p = gets (λ w. w.host.statvfs p)

-- `os.statvfs(p)`, which needs something to stand at the path.
unfoldable pub statvfs : FilePath → Exec World StatVfs
statvfs p w = statvfs_at (node_at p w) p w

abbrev pub capacity_in : String → StoragePool → Exec World ℕ
capacity_in name pool = statvfs pool.path >>= λ stats.
    get_volumes_stats_by_pool name >>= λ volume_stats.
    pure (capacity_of stats pool (physical_sizes volume_stats))

abbrev pub configured_pool : String → Exec World StoragePool
configured_pool name w = or_raise (lookup name w.config.storage_pools) (key_error name) w

unfoldable pub get_capacity : Option String → Exec World ℕ
get_capacity storage_pool =
    gets (pool_name storage_pool) >>= λ name. configured_pool name >>= capacity_in name

min_ℤ-fits :
    (x : ℤ) (n f : ℕ) → (n ≤ pos_part (min_ℤ x (pos f))) ↔ ((n ≡ 0) ⊎ ((n ≤ f) × (pos n ≤ℤ x)))
min_ℤ-fits (pos x) n f = ground arith
min_ℤ-fits (negsuc x) n f = ground arith

≤ℤ-moves : (n p t : ℕ) (r : ℤ) → (pos n +ℤ r +ℤ pos p ≤ℤ pos t) ↔ (pos n ≤ℤ pos t -ℤ r -ℤ pos p)
≤ℤ-moves n p t r = (
  λ h. omega (
    arith,
    h,
    +ℤ_parts (pos n) r,
    +ℤ_parts (pos n +ℤ r) (pos p),
    -ℤ_parts (pos t) r,
    -ℤ_parts (pos t -ℤ r) (pos p),
  ),
  λ h. omega (
    arith,
    h,
    +ℤ_parts (pos n) r,
    +ℤ_parts (pos n +ℤ r) (pos p),
    -ℤ_parts (pos t) r,
    -ℤ_parts (pos t -ℤ r) (pos p),
  ),
)

-- The capacity that is left is the greatest that fits: a size is within it exactly if it is 0, or if it
-- is within what is free on the disk and, with what is reserved and what the volumes take up, within
-- the disk's size.
pub capacity_left-fits :
    (n total : ℕ) (reserved : ℤ) (physical free : ℕ)
    → (n ≤ capacity_left total reserved physical free) ↔ (
        (n ≡ 0)
        ⊎ ((n ≤ 100 * free) × (pos n +ℤ reserved +ℤ pos (100 * physical) ≤ℤ pos (100 * total))))
unfolding capacity_left
capacity_left-fits n total reserved physical free =
    let m = ≤ℤ-moves n (100 * physical) (100 * total) reserved in
    let f = min_ℤ-fits (pos (100 * total) -ℤ reserved -ℤ pos (100 * physical)) n (100 * free) in
    (
      λ h. elim (f.0 h) [ inl e ↦ inl e | inr p ↦ inr (p.0, m.1 p.1) ],
      λ h. f.1 (elim h [ inl e ↦ inl e | inr p ↦ inr (p.0, m.0 p.1) ]),
    )

-- A pool that is given `b` bytes of its disk never has more to give than what its volumes leave of them.
pub capacity_left-share :
    (b total physical free : ℕ)
    → capacity_left total
        (reserved_capacity_handlers subtract_from_total total (byte_size b))
        physical
        free
      ≤ 100 * (b - physical)
unfolding reserved_capacity_handlers subtract_from_total_reserved_capacity_handler
capacity_left-share b total physical free =
    let r = pos (100 * total) -ℤ pos (100 * b) in
    let c = capacity_left total r physical free in
    elim ((capacity_left-fits c total r physical free).0 (omega arith)) [
      | inl e ↦ omega (arith, e)
      | inr p ↦ omega (
        arith,
        p.1,
        +ℤ_parts (pos c) r,
        +ℤ_parts (pos c +ℤ r) (pos (100 * physical)),
        -ℤ_parts (pos (100 * total)) (pos (100 * b)),
      )
    ]
