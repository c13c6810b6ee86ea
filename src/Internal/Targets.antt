-- ===== src/Internal/Targets.antt =====
-- rawfile/utils/remote.py: the targets of the channels, which are made of addresses and read again.
-- `ip_address` says whether a text is an address and whether it is one of version 6; `parse_int` is
-- Python's `int`.
use Prim.Native.Char.{Char, code}
use Prim.Native.String.{String, [], ◌∷◌, ◌++◌}
use Prim.Native.String.append
use package.text.Mathlib.TextLemmas.{append-nil}
use rawfile_localpv.Prelude.{
  ℕ, ◌≡◌, refl, ap, ◌∙◌, subst, arith, Bool, true, false, ◌&&◌, not, Option, none, some, ◌==◌,
  if◌then◌else◌, List, lookup,
}
use rawfile_localpv.Errors.{Result, ok, err, value_error}
use rawfile_localpv.Settings.Addresses.{has_char, opens}
use rawfile_localpv.Internal.Remote.{
  Channels, prune_stale_stubs, any_eq, present, lookup-prune_stale_stubs,
}

abbrev pub cut_colon : Char → String → Option (String × String) → Option (String × String)
cut_colon c s none = if code c == b':' then some ([], s) else none
cut_colon c s (some p) = some (c ∷ p.0, p.1)

-- The last colon of a text, with what stands before and behind it.
unfoldable pub last_colon : String → Option (String × String)
last_colon [] = none
last_colon (c ∷ s) = cut_colon c s (last_colon s)

-- `hostport.rpartition(":")`, without the separator.
abbrev rpartition : Option (String × String) → String → String × String
rpartition none s = ([], s)
rpartition (some p) s = p

abbrev pub cons_init : Char → Option String → Option String
cons_init c none = none
cons_init c (some s) = some (c ∷ s)

-- The text without a bracket at its end, if there is one.
unfoldable pub without_bracket : String → Option String
without_bracket [] = none
without_bracket (c ∷ []) = if code c == b']' then some [] else none
without_bracket (c ∷ d ∷ s) = cons_init c (without_bracket (d ∷ s))

abbrev or_text : Option String → String → String
or_text none s = s
or_text (some t) s = t

-- `address[1:-1]`, of an address in brackets.
abbrev pub unbracket : String → String
unbracket [] = []
unbracket (c ∷ s) = if code c == b'[' then or_text (without_bracket s) (c ∷ s) else c ∷ s

module _ (ip_address : String → Option Bool) (parse_int : String → Option ℕ) (port : String) where
  abbrev target_of : Option Bool → String → Result String
  target_of none address = err value_error
  target_of (some true) address = ok ("[" ++ address ++ "]" ++ ":" ++ port)
  target_of (some false) address = ok (address ++ ":" ++ port)

  -- `__build_remote_hostport`
  unfoldable pub build_remote_hostport : String → Result String
  build_remote_hostport address = target_of (ip_address address) address

  abbrev checked : Option Bool → Option ℕ → String → Result (String × ℕ)
  checked none n address = err value_error
  checked (some v) none address = err value_error
  checked (some v) (some n) address = ok (address, n)

  abbrev extracted : String × String → Result (String × ℕ)
  extracted p = checked (ip_address (unbracket p.0)) (parse_int p.1) (unbracket p.0)

  -- `__extract_remote_hostport`
  unfoldable pub extract_remote_hostport : String → Result (String × ℕ)
  extract_remote_hostport hostport = extracted (rpartition (last_colon hostport) hostport)

last_colon-none : (s : String) → has_char b':' s ≡ false → last_colon s ≡ none
unfolding last_colon
last_colon-none [] h = refl
last_colon-none (c ∷ s) h = rw (last_colon-none s (ground (arith, h))) (ground (arith, h))

last_colon-append :
    (a s : String) {x p : String}
    → last_colon s ≡ some (x, p)
    → last_colon (a ++ s) ≡ some (a ++ x, p)
unfolding last_colon
last_colon-append [] s h = rw (append.nil, append.nil) h
last_colon-append (c ∷ a) s h = rw (append.cons, append.cons) (rw (last_colon-append a s h) refl)

last_colon-port : (p : String) → has_char b':' p ≡ false → last_colon (":" ++ p) ≡ some ([], p)
unfolding last_colon
last_colon-port p h = rw (append.cons, append.nil) (rw (last_colon-none p h) refl)

without_bracket-append : (a : String) → without_bracket (a ++ "]") ≡ some a
unfolding without_bracket
without_bracket-append [] = refl
without_bracket-append (c ∷ []) = rw append.cons refl
without_bracket-append (c ∷ d ∷ a) =
    let rest : without_bracket (d ∷ (a ++ "]")) ≡ some (d ∷ a) =
      subst (λ x. without_bracket x ≡ some (d ∷ a)) (append.cons d a "]")
        (without_bracket-append (d ∷ a)) in
    rw append.cons (rw append.cons (rw rest refl))

unbracket-opens : (a : String) → opens a ≡ false → unbracket a ≡ a
unbracket-opens [] h = refl
unbracket-opens (c ∷ a) h = rw h refl

unbracket-bracketed : (a : String) → unbracket ("[" ++ a ++ "]") ≡ a
unbracket-bracketed a = rw (append.cons, append.nil) (rw (without_bracket-append a) refl)

module _ (ip_address : String → Option Bool) (parse_int : String → Option ℕ) (port : String) where
  -- The target that is made of an address, an IPv6 one in brackets, is read as that address and the
  -- port. The text of the port has no colon and is read as a number; a text that is an address does
  -- not begin with a bracket.
  pub extract-build :
      (address : String) (v6 : Bool) (n : ℕ)
      → ip_address address ≡ some v6
      → opens address ≡ false
      → has_char b':' port ≡ false
      → parse_int port ≡ some n
      → (target : String) × (build_remote_hostport ip_address parse_int port address ≡ ok target)
        × (extract_remote_hostport ip_address parse_int port target ≡ ok (address, n))
  unfolding build_remote_hostport extract_remote_hostport
  extract-build address true n e o h f =
      let split : last_colon ("[" ++ address ++ "]" ++ ":" ++ port)
          ≡ some ("[" ++ address ++ "]", port) =
        last_colon-append "[" _
          (last_colon-append address _ (last_colon-append "]" _ (last_colon-port port h))) in
      (
        "[" ++ address ++ "]" ++ ":" ++ port,
        rw e refl,
        rw split (rw (unbracket-bracketed address, e, f) refl),
      )
  extract-build address false n e o h f =
      let split : last_colon (address ++ ":" ++ port) ≡ some (address, port) =
        last_colon-append address _ (last_colon-port port h)
        ∙ ap (λ x. some (x, port)) (append-nil address) in
      (address ++ ":" ++ port, rw e refl, rw split (rw (unbracket-opens address o, e, f) refl))

  abbrev address_of : Result (String × ℕ) → String
  address_of (ok p) = p.0
  address_of (err e) = []

  -- The address of a target. Every target in the cache is one that was built, so that the code never raises
  -- here; of any other text this gives the empty address, where the code raises.
  abbrev pub host_of : String → String
  host_of target = address_of (extract_remote_hostport ip_address parse_int port target)

  -- Pruning tells the targets by their addresses: the target that is built for an address loses its
  -- stub if no node has that address any more and there is a channel to it, and keeps it otherwise.
  -- The text of the port has no colon and is a number's, and an address does not begin with a
  -- bracket.
  pub prune_stale_stubs-build :
      (node_ips : List String) (c : Channels) (address : String) (v6 : Bool) (n : ℕ)
      → ip_address address ≡ some v6
      → opens address ≡ false
      → has_char b':' port ≡ false
      → parse_int port ≡ some n
      → (target : String) × (build_remote_hostport ip_address parse_int port address ≡ ok target)
        × (extract_remote_hostport ip_address parse_int port target ≡ ok (address, n))
        × (lookup target (prune_stale_stubs host_of node_ips c).stubs ≡ (
            if not (any_eq address node_ips) && present (lookup target c.channels)
            then none
            else lookup target c.stubs))
  prune_stale_stubs-build node_ips c address v6 n e o h f =
      let (target, built, read) = extract-build address v6 n e o h f in
      (
        target,
        built,
        read,
        lookup-prune_stale_stubs host_of node_ips target c
            ∙ ap
                (λ r.
                  if not (any_eq (address_of r) node_ips) && present (lookup target c.channels)
                  then none
                  else lookup target c.stubs)
                read,
      )
