-- ===== src/Settings/Nameservers.antt =====
-- rawfile/utils/net.py: the check of the nameservers, and the checks of rawfile/config/model.py on all
-- commands. `split`, `strip`, `ip_address` and `parse_int` are Python's; warnings are not kept.
use rawfile_localpv.Prelude.{
  ℕ, ◌≡◌, refl, ap, arith, Bool, true, false, ◌||◌, ◌&&◌, not, Option, none, some, List, [], ◌∷◌,
  String, str_eq, if◌then◌else◌, leb, Bool-cases, inl, inr, All,
}
use rawfile_localpv.Errors.{Result, ok, err, value_error}
use rawfile_localpv.Settings.Addresses.{split_host_port}

-- A text, or a list of texts that may be missing.
pub data Nameservers : Type 0 where
  spec : String → Nameservers
  listed : Option (List String) → Nameservers

module _ (strip : String → String) (split : String → List String) (ip_address : String → Bool)
    (parse_int : String → Option ℕ) where
  -- `[s.strip() for s in value.split(",") if s.strip()]`
  unfoldable pub stripped : List String → List String
  stripped [] = []
  stripped (s ∷ ss) = let rest = stripped ss in if str_eq (strip s) "" then rest else strip s ∷ rest

  abbrev entries_of : Nameservers → List String
  entries_of (spec s) = stripped (split s)
  entries_of (listed none) = []
  entries_of (listed (some es)) = es

  abbrev in_range : Option ℕ → Bool
  in_range none = false
  in_range (some n) = leb n 65535

  -- The address and the port, when there is one, are proper.
  abbrev pub is_valid : String × String → Bool
  is_valid p = ip_address p.0 && (str_eq p.1 "" || in_range (parse_int p.1))

  unfoldable pub valid_entries : List String → List String
  valid_entries [] = []
  valid_entries (e ∷ es) =
      let rest = valid_entries es in if is_valid (split_host_port strip e) then e ∷ rest else rest

  unfoldable pub parse_nameservers : Nameservers → List String
  parse_nameservers value = valid_entries (entries_of value)

  valid_entries-All :
      (es : List String) → All (λ e. is_valid (split_host_port strip e) ≡ true) (valid_entries es)
  unfolding valid_entries
  valid_entries-All [] = tt
  valid_entries-All (e ∷ es) = elim (Bool-cases (is_valid (split_host_port strip e))) [
    | inl y ↦ rw y (y, valid_entries-All es)
    | inr y ↦ rw y (valid_entries-All es)
  ]

  valid_entries-eq :
      (es : List String)
      → All (λ e. is_valid (split_host_port strip e) ≡ true) es
      → valid_entries es ≡ es
  unfolding valid_entries
  valid_entries-eq [] h = refl
  valid_entries-eq (e ∷ es) h = rw h.0 (ap (λ xs. e ∷ xs) (valid_entries-eq es h.1))

  -- What the check leaves are entries with a proper address and port, and checking these again, as
  -- a list, leaves them as they are.
  pub parse_nameservers-All :
      (value : Nameservers)
      → All (λ e. is_valid (split_host_port strip e) ≡ true) (parse_nameservers value)
        × (parse_nameservers (listed (some (parse_nameservers value))) ≡ parse_nameservers value)
  unfolding parse_nameservers
  parse_nameservers-All value = (
    valid_entries-All (entries_of value),
    valid_entries-eq _ (valid_entries-All (entries_of value)),
  )

-- The fields of `RawFileCmd` that its own checks read; `served` says that the API server or the driver
-- is run.
pub record Command : Type 0 where
  pub served : Bool
  pub node_ds : Option String
  pub internal_signature : Option String
  pub internal_port : Option ℕ
  pub ga_enabled : Bool
  pub ga_id : Option String
  pub ga_key : Option String

-- The text is there and not empty.
abbrev pub is_given : Option String → Bool
is_given none = false
is_given (some s) = not (str_eq s "")

-- A port is a number from 1 on.
abbrev pub is_port : Option ℕ → Bool
is_port none = false
is_port (some n) = leb 1 n

unfoldable pub validate_ds : Command → Result Command
validate_ds c =
    if c.served && not (is_given c.node_ds)
    then err value_error
    else if c.served && not (is_given c.internal_signature)
    then err value_error
    else if c.served && not (is_port c.internal_port)
    then err value_error
    else ok c

unfoldable pub validate_ga : Command → Command
validate_ga c =
    if c.ga_enabled && not (is_given c.ga_id && is_given c.ga_key)
    then record c { ga_enabled = false }
    else c

-- The checks that follow the reading of the settings.
unfoldable pub validate_command : Command → Result Command
validate_command c = elim (validate_ds c) [ ok d ↦ ok (validate_ga d) | err e ↦ err e ]

-- Settings that are accepted name all that a server needs, and analytics are only left on with their
-- identifier and key; nothing else is changed.
pub validate_command-IsUsable :
    (c d : Command)
    → validate_command c ≡ ok d
    → ((c.served ≡ true)
        → (is_given d.node_ds ≡ true)
          × (is_given d.internal_signature ≡ true)
          × (is_port d.internal_port ≡ true))
      × (d.ga_enabled ≡ true → (is_given d.ga_id && is_given d.ga_key) ≡ true)
unfolding validate_command validate_ds validate_ga
validate_command-IsUsable c d h = ground (arith, h)
