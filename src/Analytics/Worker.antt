-- ===== src/Analytics/Worker.antt =====
-- rawfile/analytics/ga4/__init__.py: the queue of the events and the thread that sends them. The queue is
-- what the thread takes from it in turn; `none` is the mark at which it ends.
use rawfile_localpv.Prelude.{
  ℕ, ◌+◌, ◌*◌, Bool, true, false, Option, none, some, List, [], ◌∷◌, String, if◌then◌else◌, ltb,
}
use rawfile_localpv.Errors.{Result, ok, err}
use rawfile_localpv.Exec.{Exec, ◌>>=◌}
use rawfile_localpv.Analytics.Builder.{new_builder, refresh_version}
use rawfile_localpv.Analytics.Events.{
  Sender, on_api, on_builder, new_version_set, refresh, volume_provision, volume_deprovision,
}

-- What CreateVolume and DeleteVolume put into the queue.
pub data UsageTask : Type 0 where
  provisioned : String → String → ℕ → UsageTask
  deprovisioned : String → ℕ → UsageTask

-- 4 hours, in microseconds.
abbrev pub cache_duration : ℕ
cache_duration = 60 * 60 * 4 * 1000000

-- `get_usage`, when `version_info` is not cached yet.
unfoldable pub get_usage : String → Exec Sender Unit
get_usage provisioner_version s =
    (on_api (new_version_set s.nodeid) >>= λ v.
    on_builder (λ b. refresh_version v (new_builder provisioner_version)))
      s

-- `send_event`, into the queue; `enabled` is `config.ga_enabled`.
unfoldable pub send_event : Bool → UsageTask → List (Option UsageTask) → List (Option UsageTask)
send_event true task [] = some task ∷ []
send_event true task (t ∷ ts) = t ∷ send_event true task ts
send_event false task queue = queue

module _ (naturalsize : ℕ → String) where
  abbrev pub run_task : UsageTask → Exec Sender Unit
  run_task (provisioned pvc_name name capacity) =
      volume_provision naturalsize pvc_name name capacity
  run_task (deprovisioned name capacity) = volume_deprovision naturalsize name capacity

  -- The exceptions of a task are logged.
  abbrev after_task : ℕ → Result Unit × Sender → ℕ × Sender
  after_task last_updated r = (last_updated, r.1)

  abbrev after_refresh : ℕ → ℕ → UsageTask → Result Unit × Sender → ℕ × Sender
  after_refresh current_time last_updated task (ok _, s) = after_task current_time (run_task task s)
  after_refresh current_time last_updated task (err e, s) = (last_updated, s)

  -- One task: it gives `last_updated` and what the sender is afterwards.
  abbrev pub work : ℕ → ℕ → UsageTask → Sender → ℕ × Sender
  work current_time last_updated task s =
      if ltb (last_updated + cache_duration) current_time
      then after_refresh current_time last_updated task (refresh s)
      else after_task last_updated (run_task task s)

  -- The loop of `worker`.
  unfoldable pub worker_loop : ℕ → ℕ → List (Option UsageTask) → Sender → Sender
  worker_loop current_time last_updated [] s = s
  worker_loop current_time last_updated (none ∷ queue) s = s
  worker_loop current_time last_updated (some task ∷ queue) s =
      let r = work current_time last_updated task s in worker_loop current_time r.0 queue r.1

  abbrev begun : ℕ → ℕ → List (Option UsageTask) → Result Unit × Sender → Sender
  begun current_time last_updated queue (ok _, s) = worker_loop current_time last_updated queue s
  begun current_time last_updated queue (err e, s) = s

  -- `worker`, with the two readings of the clock that it begins with.
  unfoldable pub worker : String → ℕ → ℕ → List (Option UsageTask) → Sender → Sender
  worker provisioner_version current_time last_updated queue s =
      begun current_time last_updated queue (get_usage provisioner_version s)
