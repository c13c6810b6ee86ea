-- ===== src/Analytics/Claims.antt =====
-- rawfile/analytics/ga4/__init__.py: what the events of the worker's thread carry over from one another.
use rawfile_localpv.Prelude.{
  ℕ, ◌+◌, ◌≤◌, ◌≡◌, refl, sym, ap, ◌∙◌, arith, Bool, true, false, not, ◌||◌, ◌&&◌, Option, none,
  some, List, [], ◌∷◌, String, lookup, contains, ltb, str_eq, All, All-append, ◌++◌, Bool-cases,
  inl, inr, lookup-insert,
}
use mathlib.Core.List.{append_assoc}
use rawfile_localpv.Json.{text, Json}
use rawfile_localpv.Analytics.Builder.{
  category, volume_capacity, replica_count, volume_claim_name, volume_name,
}
use rawfile_localpv.Analytics.Events.{
  Event, Sender, send, event_of, upload_after, provision_params, deprovision_params,
  volume_provision, volume_deprovision,
}
use rawfile_localpv.Analytics.Worker.{
  UsageTask, provisioned, deprovisioned, cache_duration, run_task, work, worker_loop,
}

-- A task that names no claim.
abbrev pub is_claimless : UsageTask → Bool
is_claimless (provisioned pvc_name name capacity) = str_eq pvc_name ""
is_claimless (deprovisioned name capacity) = true

-- Whether a task sets the parameter `k`.
abbrev pub writes : UsageTask → String → Bool
writes t k =
    str_eq "vol_name" k
    || str_eq "vol_replica_count" k
    || str_eq "vol_capacity" k
    || str_eq "event_category" k
    || (str_eq "vol_claim_name" k && not (is_claimless t))

-- The parameters that the tasks set.
abbrev pub is_volume_key : String → Bool
is_volume_key k =
    str_eq "vol_name" k
    || str_eq "vol_replica_count" k
    || str_eq "vol_capacity" k
    || str_eq "event_category" k
    || str_eq "vol_claim_name" k

writes-no : (t : UsageTask) (k : String) → is_volume_key k ≡ false → writes t k ≡ false
writes-no t k h = ground (arith, h)

upload_after-keeps :
    (us : List Bool) (e : Event) (s : Sender)
    → ((upload_after us e s).1.api ≡ s.api) × ((upload_after us e s).1.builder ≡ s.builder)
upload_after-keeps [] e s = (refl, refl)
upload_after-keeps (true ∷ us) e s = (refl, refl)
upload_after-keeps (false ∷ us) e s = (refl, refl)

send-keeps : (s : Sender) → ((send s).1.api ≡ s.api) × ((send s).1.builder ≡ s.builder)
unfolding send
send-keeps s =
    elim (Bool-cases
      (not (contains "event_category" s.builder) || not (contains "engine_name" s.builder))) [
        | inl y ↦ rw y (refl, refl)
        | inr y ↦ rw y (upload_after-keeps s.uploads (event_of s.builder) s)
      ]

-- The events of a run that come on top of those that were sent before.
abbrev pub Adds {ℓ} : (Event → Type ℓ) → List Event → List Event → Type ℓ
Adds P before after = (new : List Event) × (after ≡ new ++ before) × All P new

abbrev pub HasClaim : String → Event → Type 0
HasClaim pvc e = lookup "vol_claim_name" e.params ≡ some (text pvc)

upload_after-Adds :
    (P : Event → Type 0) (us : List Bool) (e : Event) (s : Sender)
    → P e
    → Adds P s.sent (upload_after us e s).1.sent
upload_after-Adds P [] e s h = (e ∷ [], refl, (h, tt))
upload_after-Adds P (true ∷ us) e s h = (e ∷ [], refl, (h, tt))
upload_after-Adds P (false ∷ us) e s h = ([], refl, tt)

send-Adds :
    (P : Event → Type 0) (s : Sender) → P (event_of s.builder) → Adds P s.sent (send s).1.sent
unfolding send
send-Adds P s h =
    elim (Bool-cases
      (not (contains "event_category" s.builder) || not (contains "engine_name" s.builder))) [
        | inl y ↦ rw y ([], refl, tt)
        | inr y ↦ rw y (upload_after-Adds P s.uploads (event_of s.builder) s h)
      ]

Adds-trans : (P : Event → Type 0) (a b c : List Event) → Adds P a b → Adds P b c → Adds P a c
Adds-trans P a b c (x, e, h) (y, f, k) =
    (y ++ x, f ∙ ap (λ z. y ++ z) e ∙ sym (append_assoc y x a), All-append P y x k h)

abbrev pub AllClaimless : List (Option UsageTask) → Type 0
AllClaimless [] = Unit
AllClaimless (none ∷ queue) = Unit
AllClaimless (some t ∷ queue) = (is_claimless t ≡ true) × AllClaimless queue

claimless-writes : (t : UsageTask) → is_claimless t ≡ true → writes t "vol_claim_name" ≡ false
claimless-writes t h = rw h refl

module _ (naturalsize : ℕ → String) where
  abbrev params_of : UsageTask → Json → Json
  params_of (provisioned pvc name capacity) = provision_params naturalsize pvc name capacity
  params_of (deprovisioned name capacity) = deprovision_params naturalsize name capacity

  lookup-params_of :
      (t : UsageTask) (k : String) (b : Json)
      → writes t k ≡ false
      → lookup k (params_of t b) ≡ lookup k b
  unfolding category volume_capacity replica_count volume_claim_name volume_name
  lookup-params_of (provisioned pvc name capacity) k b w = elim (Bool-cases (str_eq pvc "")) [
    | inl e ↦ rw e (
        rw lookup-insert
          (rw lookup-insert (rw lookup-insert (rw lookup-insert (ground (arith, w))))))
    | inr e ↦ rw e (
        rw lookup-insert (
          rw lookup-insert
            (rw lookup-insert (rw lookup-insert (rw lookup-insert (ground (arith, w, e)))))))
  ]
  lookup-params_of (deprovisioned name capacity) k b w =
      rw lookup-insert (rw lookup-insert (rw lookup-insert (rw lookup-insert (ground (arith, w)))))

  -- A task asks the API for nothing, and sets no other parameters.
  run_task-keeps :
      (t : UsageTask) (k : String) (s : Sender)
      → writes t k ≡ false
      → ((run_task naturalsize t s).1.api ≡ s.api)
        × (lookup k (run_task naturalsize t s).1.builder ≡ lookup k s.builder)
  unfolding volume_provision volume_deprovision
  run_task-keeps (provisioned pvc name capacity) k s w =
      let t = provisioned pvc name capacity in
      let kept = send-keeps (record s { builder = params_of t s.builder }) in
      (kept.0, rw kept.1 (lookup-params_of t k s.builder w))
  run_task-keeps (deprovisioned name capacity) k s w =
      let t = deprovisioned name capacity in
      let kept = send-keeps (record s { builder = params_of t s.builder }) in
      (kept.0, rw kept.1 (lookup-params_of t k s.builder w))

  lookup-builder :
      (t : UsageTask) (k : String) (s : Sender)
      → lookup k (run_task naturalsize t s).1.builder ≡ lookup k (params_of t s.builder)
  unfolding volume_provision volume_deprovision
  lookup-builder (provisioned pvc name capacity) k s =
      ap (lookup k)
        (send-keeps (record s { builder = params_of (provisioned pvc name capacity) s.builder })).1
  lookup-builder (deprovisioned name capacity) k s =
      ap (lookup k)
        (send-keeps (record s { builder = params_of (deprovisioned name capacity) s.builder })).1

  -- While the start is not longer ago than the cache lasts, which never changes, no task refreshes.
  work-eq :
      (current last : ℕ) (t : UsageTask) (s : Sender)
      → current ≤ last + cache_duration
      → work naturalsize current last t s ≡ (last, (run_task naturalsize t s).1)
  work-eq current last t s h =
      let no : ltb (last + cache_duration) current ≡ false = ground (arith, h) in rw no refl

  worker_loop-cons :
      (current last : ℕ) (t : UsageTask) (queue : List (Option UsageTask)) (s : Sender)
      → current ≤ last + cache_duration
      → worker_loop naturalsize current last (some t ∷ queue) s
        ≡ worker_loop naturalsize current last queue (run_task naturalsize t s).1
  unfolding worker_loop
  worker_loop-cons current last t queue s h =
      ap (λ r. worker_loop naturalsize current r.0 queue r.1) (work-eq current last t s h)

  -- The thread, whose two readings of the clock at its start are less than four hours apart, never asks
  -- the API for the versions again, however many tasks it takes and however long it runs: all of its
  -- events have the versions, the kernel and the count of nodes that it began with.
  pub worker_loop-never_refreshes :
      (current last : ℕ) (queue : List (Option UsageTask)) (s : Sender) (k : String)
      → current ≤ last + cache_duration
      → is_volume_key k ≡ false
      → ((worker_loop naturalsize current last queue s).api ≡ s.api)
        × (lookup k (worker_loop naturalsize current last queue s).builder ≡ lookup k s.builder)
  unfolding worker_loop
  worker_loop-never_refreshes current last [] s k h ne = (refl, refl)
  worker_loop-never_refreshes current last (none ∷ queue) s k h ne = (refl, refl)
  worker_loop-never_refreshes current last (some t ∷ queue) s k h ne =
      let one = run_task-keeps t k s (writes-no t k ne) in
      let rest =
        worker_loop-never_refreshes current last queue (run_task naturalsize t s).1 k h ne in
      rw (worker_loop-cons current last t queue s h) (rest.0 ∙ one.0, rest.1 ∙ one.1)

  run_task-Adds :
      (P : Event → Type 0) (t : UsageTask) (s : Sender)
      → P (event_of (params_of t s.builder))
      → Adds P s.sent (run_task naturalsize t s).1.sent
  unfolding volume_provision volume_deprovision
  run_task-Adds P (provisioned pvc name capacity) s h =
      send-Adds P (record s { builder = params_of (provisioned pvc name capacity) s.builder }) h
  run_task-Adds P (deprovisioned name capacity) s h =
      send-Adds P (record s { builder = params_of (deprovisioned name capacity) s.builder }) h

  worker_loop-HasClaim :
      (current last : ℕ) (pvc : String) (queue : List (Option UsageTask)) (s : Sender)
      → current ≤ last + cache_duration
      → AllClaimless queue
      → lookup "vol_claim_name" s.builder ≡ some (text pvc)
      → Adds (HasClaim pvc) s.sent (worker_loop naturalsize current last queue s).sent
  unfolding worker_loop
  worker_loop-HasClaim current last pvc [] s h a e = ([], refl, tt)
  worker_loop-HasClaim current last pvc (none ∷ queue) s h a e = ([], refl, tt)
  worker_loop-HasClaim current last pvc (some t ∷ queue) s h a e =
      let w = claimless-writes t a.0 in
      let k : String = "vol_claim_name" in
      rw (worker_loop-cons current last t queue s h) (
        Adds-trans (HasClaim pvc) _ _ _
          (run_task-Adds (HasClaim pvc) t s (lookup-params_of t k s.builder w ∙ e))
          (worker_loop-HasClaim current last pvc queue (run_task naturalsize t s).1 h a.1
            ((run_task-keeps t k s w).1 ∙ e)))

  lookup-claim :
      (pvc name : String) (capacity : ℕ) (b : Json)
      → str_eq pvc "" ≡ false
      → lookup "vol_claim_name" (params_of (provisioned pvc name capacity) b) ≡ some (text pvc)
  unfolding volume_claim_name volume_name
  lookup-claim pvc name capacity b ne = rw ne (rw lookup-insert (rw lookup-insert refl))

  -- After a volume with the claim `pvc` has been provisioned, the events of all later tasks carry that
  -- claim until another one is named: those of other volumes, whose request names none or which
  -- are removed.
  pub worker_loop-carries_claim :
      (current last : ℕ) (pvc name : String) (capacity : ℕ) (queue : List (Option UsageTask))
      (s : Sender)
      → current ≤ last + cache_duration
      → str_eq pvc "" ≡ false
      → AllClaimless queue
      → Adds
          (HasClaim pvc)
          s.sent
          (worker_loop naturalsize current last
            (some (provisioned pvc name capacity) ∷ queue)
            s).sent
  worker_loop-carries_claim current last pvc name capacity queue s h ne a =
      let t = provisioned pvc name capacity in
      let e = lookup-claim pvc name capacity s.builder ne in
      rw (worker_loop-cons current last t queue s h) (
        Adds-trans (HasClaim pvc) _ _ _ (run_task-Adds (HasClaim pvc) t s e) (
          worker_loop-HasClaim current last pvc queue (run_task naturalsize t s).1 h a
            (lookup-builder t "vol_claim_name" s ∙ e)))
