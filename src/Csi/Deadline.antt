-- ===== src/Csi/Deadline.antt =====
-- rawfile/rawfile_servicer.py and rawfile/bd2fs.py: the calls that wait come to an end.
use rawfile_localpv.Prelude.{
  ℕ, ◌+◌, ◌*◌, ◌≤◌, ◌≡◌, refl, ap, arith, Bool, true, false, Option, none, some, List, [], ◌∷◌,
  String, lookup, ltb, length, if◌then◌else◌,
}
use rawfile_localpv.Json.{Value, Json}
use rawfile_localpv.Errors.{Result, ok, err, key_error}
use rawfile_localpv.Exec.{Exec, ◌>>=◌, proceed, pure, lift, or_raise}
use rawfile_localpv.Node.World.{World, time, tick, read_json}
use rawfile_localpv.Node.Metadata.{metadata, metadata_or, item, as_text}
use rawfile_localpv.Node.Reading.{
  IsReading, bind-IsReading, or_raise-IsReading, metadata_or-IsReading,
}
use rawfile_localpv.Schema.Versions.{Post, Post-proceed, Post-bind, Post-if}
use rawfile_localpv.Volumes.Snapshots.{Snapshot}
use rawfile_localpv.Volumes.Paging.{pool_named, matching_snapshot, snapshot_in_pool, find_snapshot}
use rawfile_localpv.Tasks.Defs.{TaskName}
use rawfile_localpv.Csi.Provision.{CreateVolumeRequest, Plan, plan_volume}
use rawfile_localpv.Csi.Waiting.{
  Driver, put_node, on_node, ready_of, deadline, found, poll, volume_check, CreationOptions,
  start_creation, wait_for_volume, volume_answer, create_volume_call, first_snapshot, if_ready,
  current_snapshot, snapshot_check, snapshot_arguments, snapshot_rest, start_snapshot,
  snapshot_answer, wait_for_snapshot, create_snapshot_call,
}

abbrev pub now : Driver → ℕ
now d = d.node.now

-- Every sleep takes half a second at least.
abbrev pub AllSleep : List (Driver → Driver) → Type 0
AllSleep [] = Unit
AllSleep (sleep ∷ sleeps) = ((d : Driver) → now d + 500000 ≤ now (sleep d)) × AllSleep sleeps

-- A call does not set the clock back.
abbrev pub IsForward : {A : Type 0} → Exec Driver A → Type 0
IsForward m = (d : Driver) → now d ≤ now (m d).1

abbrev pub has_ended : {A : Type 0} → Option A → Bool
has_ended none = false
has_ended (some a) = true

-- What the clock gives is what it stands at afterwards.
abbrev IsReadingOf : Driver → Result ℕ × Driver → Type 0
IsReadingOf d (ok t, d') = (t ≡ now d') × (now d ≤ t)
IsReadingOf d (err e, d') = ⊥

tick-IsReadingOf : (ticks : List ℕ) (d : Driver) → IsReadingOf d (on_node (tick ticks) d)
tick-IsReadingOf [] d = (refl, omega arith)
tick-IsReadingOf (t ∷ ts) d = (refl, omega arith)

time-IsReadingOf : (d : Driver) → IsReadingOf d (on_node time d)
unfolding time
time-IsReadingOf d = tick-IsReadingOf d.node.ticks d

module _ {A : Type 0} (check : Exec Driver (Option A)) (forward : IsForward check) (start : ℕ) where
  last_round :
      (last : Option A) (d : Driver) (r : Result ℕ × Driver)
      → IsReadingOf d r
      → start + deadline ≤ now d
      → Post
          (λ o. has_ended o ≡ true)
          (proceed (λ t. pure (if ltb t (start + deadline) then none else some last)) r)
  last_round last d (ok t, d') h k = expired (ltb t (start + deadline)) (ground (arith, h.1, k))
    where
      expired : (b : Bool) → b ≡ false → has_ended (if b then none else some last) ≡ true
      expired true e = ground (arith, e)
      expired false e = refl
  last_round last d (err e, d') h k = tt

  -- What the rest of the loop needs: that it ends from any state that is late enough.
  after_check :
      (sleep : Driver → Driver) (rest : Exec Driver (Option (Option A))) (n : ℕ) (d : Driver)
      (r : Result (Option A) × Driver)
      → now d ≤ now r.1
      → ((e : Driver) → now e + 500000 ≤ now (sleep e))
      → ((e : Driver) → now d + 500000 ≤ now e → Post (λ o. has_ended o ≡ true) (rest e))
      → Post (λ o. has_ended o ≡ true) (proceed (λ o. found o sleep rest) r)
  after_check sleep rest n d (ok (some a), e) h k g = refl
  after_check sleep rest n d (ok none, e) h k g = g (sleep e) (omega (arith, h, k e))
  after_check sleep rest n d (err x, e) h k g = tt

  one_round :
      (last : Option A) (sleep : Driver → Driver) (rest : Exec Driver (Option (Option A)))
      (d : Driver) (r : Result ℕ × Driver)
      → IsReadingOf d r
      → ((e : Driver) → now e + 500000 ≤ now (sleep e))
      → ((e : Driver) → now d + 500000 ≤ now e → Post (λ o. has_ended o ≡ true) (rest e))
      → Post
          (λ o. has_ended o ≡ true)
          (proceed
            (λ t.
              if ltb t (start + deadline)
              then (check >>= λ o. found o sleep rest)
              else pure (some last))
            r)
  one_round last sleep rest d (ok t, d') h k g =
      Post-if (λ o. has_ended o ≡ true) (ltb t (start + deadline))
        (check >>= λ o. found o sleep rest) (pure (some last)) d'
        (λ e.
          after_check sleep rest t d' (check d') (forward d') k
            (λ x l. g x (omega (arith, l, h.0, h.1))))
        (λ e. refl)
  one_round last sleep rest d (err x, d') h k g = tt

  pub poll-ends :
      (last : Option A) (sleeps : List (Driver → Driver)) (d : Driver)
      → AllSleep sleeps
      → start + deadline ≤ now d + 500000 * length sleeps
      → Post (λ o. has_ended o ≡ true) (poll check start last sleeps d)
  unfolding poll
  poll-ends last [] d a h =
      last_round last d (on_node time d) (time-IsReadingOf d) (omega (arith, h))
  poll-ends last (sleep ∷ sleeps) d a h =
      one_round last sleep (poll check start none sleeps) d (on_node time d) (time-IsReadingOf d)
        a.0 (λ e l. poll-ends none sleeps e a.1 (omega (arith, h, l)))

kept_clock :
    {A B : Type 0} (f : A → B) (d : Driver) (r : Result A × World)
    → r.1 ≡ d.node
    → now d ≤ now (proceed (λ a. pure (f a)) (put_node d.manager r)).1
kept_clock f d (ok a, w) e = omega (arith, ap (λ w. w.now) e)
kept_clock f d (err x, w) e = omega (arith, ap (λ w. w.now) e)

volume_check-IsForward : (name : String) → IsForward (volume_check name)
volume_check-IsForward name d =
    kept_clock ready_of d (metadata_or name d.node) (metadata_or-IsReading name d.node)

pool_named-IsReading : (v : Value) → IsReading (pool_named v)
pool_named-IsReading v w =
    bind-IsReading (lift (as_text v))
      (λ pool w. or_raise (lookup pool w.config.storage_pools) (key_error pool) w) (λ w. refl)
      (λ pool w. or_raise-IsReading (lookup pool w.config.storage_pools) (key_error pool) w) w

find_snapshot-IsReading : (v name : String) → IsReading (find_snapshot v name false)
unfolding find_snapshot metadata read_json
find_snapshot-IsReading v name w =
    bind-IsReading (metadata v) (snapshot_in_pool none none v name false) (λ w. refl)
      (λ meta.
        bind-IsReading (lift (item "storage_pool" meta))
          (λ x. pool_named x >>= matching_snapshot none none v name false) (λ w. refl)
          (λ x.
            bind-IsReading (pool_named x) (matching_snapshot none none v name false)
              (pool_named-IsReading x) (λ p w. refl)))
      w

current_snapshot-IsForward : (v name : String) → IsForward (current_snapshot v name)
current_snapshot-IsForward v name d =
    kept_clock (λ l. first_snapshot l.snapshots) d (find_snapshot v name false d.node)
      (find_snapshot-IsReading v name d.node)

pure_last :
    {A B : Type 0} (f : A → B) (r : Result A × Driver)
    → now (proceed (λ a. pure (f a)) r).1 ≡ now r.1
pure_last f (ok a, d) = refl
pure_last f (err x, d) = refl

snapshot_check-IsForward : (v name : String) → IsForward (snapshot_check v name)
snapshot_check-IsForward v name d =
    omega
      (arith, pure_last if_ready (current_snapshot v name d), current_snapshot-IsForward v name d)

-- Polling from the present on, with 60 sleeps or more, ends.
poll_now-ends :
    {A B : Type 0} (check : Exec Driver (Option A))
    (answer : Option (Option A) → Exec Driver (Option B)) (last : Option A)
    (sleeps : List (Driver → Driver)) (r : Result ℕ × Driver) (d : Driver)
    → IsForward check
    → AllSleep sleeps
    → 60 ≤ length sleeps
    → ((o : Option (Option A)) (e : Driver)
        → has_ended o ≡ true
        → Post (λ b. has_ended b ≡ true) (answer o e))
    → IsReadingOf d r
    → Post (λ b. has_ended b ≡ true) (proceed (λ start. poll check start last sleeps >>= answer) r)
poll_now-ends check answer last sleeps (ok t, e) d f a n k h =
    Post-bind (λ o. has_ended o ≡ true) (λ b. has_ended b ≡ true) answer
      (poll check t last sleeps e) (poll-ends check f t last sleeps e a (omega (arith, n, h.0)))
      (λ o e g. k o e g)
poll_now-ends check answer last sleeps (err x, e) d f a n k h = tt

module _ (hash : TaskName → List Value → Json → String) where
  volume_answer-ends :
      (name : String) (plan : Plan) (o : CreationOptions) (q : Option (Option Bool)) (d : Driver)
      → has_ended q ≡ true
      → Post (λ b. has_ended b ≡ true) (volume_answer hash name plan o q d)
  volume_answer-ends name plan o none d e = ground (arith, e)
  volume_answer-ends name plan o (some none) d e = tt
  volume_answer-ends name plan o (some (some b)) d e = refl

  snapshot_answer-ends :
      (v name : String) (q : Option (Option Snapshot)) (d : Driver)
      → has_ended q ≡ true
      → Post (λ b. has_ended b ≡ true) (snapshot_answer hash v name q d)
  snapshot_answer-ends v name none d e = ground (arith, e)
  snapshot_answer-ends v name (some none) d e = Post-proceed _ _ (on_node time d) (λ t d. refl)
  snapshot_answer-ends v name (some (some b)) d e = refl

  -- CreateVolume and CreateSnapshot come to an end, with an answer or an exception, within 60 sleeps of
  -- half a second or more, whatever else happens in the sleeps.
  pub create-end :
      (topology_key volume name : String) (request : CreateVolumeRequest) (o : CreationOptions)
      (sleeps : List (Driver → Driver)) (d : Driver)
      → AllSleep sleeps
      → 60 ≤ length sleeps
      → Post
          (λ a. has_ended a ≡ true)
          (create_volume_call hash topology_key volume request o sleeps d)
        × Post (λ a. has_ended a ≡ true) (create_snapshot_call hash volume name sleeps d)
  unfolding create_volume_call create_snapshot_call
  create-end topology_key volume name request o sleeps d a n = (
    Post-proceed _ _ (on_node (plan_volume topology_key request) d) (λ plan d.
        Post-proceed _ (wait_for_volume hash volume plan o sleeps)
          (start_creation hash volume plan o (on_node (metadata volume) d))
          (λ last e.
            poll_now-ends (volume_check volume) (volume_answer hash volume plan o) last sleeps
              (on_node time e) e (volume_check-IsForward volume) a n
              (volume_answer-ends volume plan o) (time-IsReadingOf e))),
    Post-proceed _ (snapshot_rest hash volume name sleeps) (snapshot_arguments volume name d)
        (λ kwargs d.
          Post-proceed _ (λ _. wait_for_snapshot hash volume name sleeps)
            ((current_snapshot volume name >>= start_snapshot hash kwargs) d)
            (λ u e.
              poll_now-ends (snapshot_check volume name) (snapshot_answer hash volume name) none
                sleeps (on_node time e) e (snapshot_check-IsForward volume name) a n
                (snapshot_answer-ends volume name) (time-IsReadingOf e))),
  )
