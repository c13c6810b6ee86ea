-- ===== src/Internal/Remote.antt =====
-- rawfile/utils/remote.py: the channels to the other nodes. A channel is what gRPC gives for a target;
-- `host_of` reads the address out of a target, `parse_address` is `ipaddress.ip_address`.
use rawfile_localpv.Prelude.{
  ℕ, suc, ◌≡◌, refl, arith, Bool, true, false, not, ◌&&◌, Option, none, some, List, [], ◌∷◌, String,
  Dict, lookup, insert, erase, if◌then◌else◌, str_eq, eq_iff, lookup-erase, inl, inr, Bool-cases,
  subst,
}

-- The channels and stubs that are cached for one kind of call, each by its number; `opened` counts
-- the channels that were made, `closed` lists those that were closed.
pub record Channels : Type 0 where
  pub channels : Dict ℕ
  pub stubs : Dict ℕ
  pub opened : ℕ
  pub closed : List ℕ

abbrev closing : Option ℕ → List ℕ → List ℕ
closing none closed = closed
closing (some c) closed = c ∷ closed

-- `_channels.pop(target, None)`, `_stubs.pop(target, None)` and `channel.close()`.
unfoldable pub evict : String → Channels → Channels
evict target c = record c {
  channels = erase target c.channels;
  stubs = erase target c.stubs;
  closed = closing (lookup target c.channels) c.closed;
}

abbrev pub any_eq : String → List String → Bool
any_eq s [] = false
any_eq s (t ∷ ts) = let rest = any_eq s ts in if str_eq t s then true else rest

abbrev pub present : Option ℕ → Bool
present none = false
present (some _) = true

Bool-both : (b : Bool) → ◌≡◌ {A = Option ℕ} (if b then none else none) none
Bool-both true = refl
Bool-both false = refl

module _ (host_of : String → String) where
  unfoldable pub prune_targets : List String → Dict ℕ → Channels → Channels
  prune_targets node_ips [] c = c
  prune_targets node_ips ((target, _) ∷ targets) c =
      let kept = prune_targets node_ips targets c in
      let evicted = prune_targets node_ips targets (evict target c) in
      if any_eq (host_of target) node_ips then kept else evicted

  -- `for target in list(_channels)`
  unfoldable pub prune_stale_stubs : List String → Channels → Channels
  prune_stale_stubs node_ips c = prune_targets node_ips c.channels c

  -- Whether `target` is among the channels and its node is gone.
  abbrev pub is_stale : List String → String → Dict ℕ → Bool
  is_stale node_ips target targets =
      not (any_eq (host_of target) node_ips) && present (lookup target targets)

  lookup-prune_targets :
      (node_ips : List String) (target : String) (targets : Dict ℕ) (c : Channels)
      → lookup target (prune_targets node_ips targets c).stubs
        ≡ (if is_stale node_ips target targets then none else lookup target c.stubs)
  unfolding prune_targets lookup evict
  lookup-prune_targets node_ips target [] c = ground arith
  lookup-prune_targets node_ips target ((t, n) ∷ targets) c = elim (Bool-cases (str_eq t target)) [
    | inl e ↦ elim (Bool-cases (any_eq (host_of t) node_ips)) [
      | inl k ↦
          let g = subst (λ x. any_eq (host_of x) node_ips ≡ true) ((eq_iff t target).0 e) k in
          rw (k, e) (rw (lookup-prune_targets node_ips target targets c) (rw g refl))
      | inr k ↦
          let g = subst (λ x. any_eq (host_of x) node_ips ≡ false) ((eq_iff t target).0 e) k in
          rw (k, e)
            (rw (lookup-prune_targets node_ips target targets (evict t c))
              (rw (g, lookup-erase t target c.stubs, e) (Bool-both _)))
    ]
    | inr e ↦ elim (Bool-cases (any_eq (host_of t) node_ips)) [
      | inl k ↦ rw (k, e) (lookup-prune_targets node_ips target targets c)
      | inr k ↦
          rw (k, e)
            (rw (lookup-prune_targets node_ips target targets (evict t c))
              (rw (lookup-erase t target c.stubs, e) refl))
    ]
  ]

  -- After the pruning a target has no stub if there was a channel to it and its node is gone, and the
  -- stub that it had otherwise.
  pub lookup-prune_stale_stubs :
      (node_ips : List String) (target : String) (c : Channels)
      → lookup target (prune_stale_stubs node_ips c).stubs
        ≡ (if is_stale node_ips target c.channels then none else lookup target c.stubs)
  unfolding prune_stale_stubs
  lookup-prune_stale_stubs node_ips target c = lookup-prune_targets node_ips target c.channels c

unfoldable pub get_stub : String → Channels → ℕ × Channels
get_stub target c = elim (lookup target c.stubs) [
  | some s ↦ (s, c)
  | none ↦ (
    c.opened,
    record c {
      channels = insert target c.opened c.channels;
      stubs = insert target c.opened c.stubs;
      opened = suc c.opened;
    },
  )
]
