-- ===== src/Analytics/Ping.antt =====
-- rawfile/analytics/ga4/ping.py: the install event and the pings, one round of the loop at a time.
-- Times are numbers of microseconds; `strftime` and `strptime` are Python's, with the driver's format.
use rawfile_localpv.Prelude.{
  ℕ, ◌+◌, ◌*◌, ◌-◌, Bool, true, false, Option, none, some, List, [], ◌∷◌, String, Dict, lookup,
  if◌then◌else◌, ltb,
}
use rawfile_localpv.Errors.{Result, ok, err, value_error}
use rawfile_localpv.Exec.{Exec, ◌>>=◌, ◌>>◌, pure, or_raise, modify}
use rawfile_localpv.Cluster.Pods.{given}
use rawfile_localpv.Cluster.ConfigMaps.{read_config_map, write_config_map}
use rawfile_localpv.Analytics.Events.{Sender, on_api, refresh, send_install, send_ping}

-- A `Ping`, its loop's `record_ping`, and the clock: `now` is its last reading, `ticks` how much later
-- each next one is.
pub record Ping : Type 0 where
  pub sender : Sender
  pub installed : Bool
  pub install_ts : Option String
  pub ping_ts : Option String
  pub ping_delta : ℕ
  pub record_ping : Bool
  pub now : ℕ
  pub ticks : List ℕ

abbrev pub put_sender : {A : Type 0} → Ping → Result A × Sender → Result A × Ping
put_sender p (r, s) = (r, record p { sender = s })

abbrev pub on_sender : {A : Type 0} → Exec Sender A → Exec Ping A
on_sender m p = put_sender p (m p.sender)

abbrev pub tick : List ℕ → Exec Ping ℕ
tick [] p = (ok p.now, p)
tick (t ∷ ts) p = (ok (p.now + t), record p { now = p.now + t; ticks = ts })

-- `datetime.now(UTC)`
abbrev pub clock : Exec Ping ℕ
clock p = tick p.ticks p

-- `time.sleep`
abbrev pub sleep : ℕ → Exec Ping Unit
sleep t = modify (λ p. record p { now = p.now + t })

abbrev pub configmap : String
configmap = "rawfile-config"

abbrev pub install_ts_key : String
install_ts_key = "install-ts"

abbrev pub ping_ts_key : String
ping_ts_key = "last-ping-ts"

abbrev pub set_ping_ts : String → Exec Ping Unit
set_ping_ts ts = modify (λ p. record p { ping_ts = some ts })

abbrev pub or_else : Option String → String → String
or_else none s = s
or_else (some t) s = t

module _ (strftime : ℕ → String) where
  abbrev pub now_to_str : Exec Ping String
  now_to_str = clock >>= λ t. pure (strftime t)

  -- `if self.install_ts is None: self.install_ts = now_to_str()`
  abbrev pub ensure_install_ts : Option String → Exec Ping String
  ensure_install_ts (some ts) = pure ts
  ensure_install_ts none =
      now_to_str >>= λ ts. modify (λ p. record p { install_ts = some ts }) >> pure ts

  -- `if not self.installed: …`
  abbrev pub ensure_installed : Bool → Exec Ping Unit
  ensure_installed true = pure tt
  ensure_installed false = on_sender send_install >> modify (λ p. record p { installed = true })

  -- The branches after the config map has been read, by what it says of the installation.
  abbrev pub install_recorded : Dict String → Option String → Exec Ping String
  install_recorded entries (some ts) =
      let last = or_else (lookup ping_ts_key entries) ts in
      modify (λ p. record p { install_ts = some ts; installed = true; ping_ts = some last })
      >> pure last
  install_recorded entries none = (λ p. ensure_install_ts p.install_ts p) >>= λ ts.
      (λ p. ensure_installed p.installed p)
      >> on_sender (on_api (write_config_map configmap install_ts_key ts false))
      >> pure ts

  abbrev pub install_once : Option String → Exec Ping String
  install_once (some ts) = pure ts
  install_once none = on_sender (on_api (read_config_map configmap)) >>= λ entries.
      install_recorded entries (lookup install_ts_key entries)

  unfoldable pub send_install_once : Exec Ping String
  send_install_once p = install_once (given p.ping_ts) p

  module _ (strptime : String → Option ℕ) where
    abbrev pub wait_until : ℕ → Exec Ping String
    wait_until target = clock >>= λ now.
        if ltb now target
        then (sleep (target - now) >> pure (strftime target))
        else pure (strftime now)

    unfoldable pub wait_ping : String → ℕ → Exec Ping String
    wait_ping last_ts interval =
        or_raise (strptime last_ts) value_error >>= λ installed. wait_until (installed + interval)

    -- `if record_ping: …`
    abbrev pub record_last : Bool → String → Exec Ping Unit
    record_last false ts = pure tt
    record_last true ts =
        on_sender (on_api (write_config_map configmap ping_ts_key ts true))
        >> modify (λ p. record p { record_ping = false })

    abbrev pub keep_record : String → Exec Ping Unit
    keep_record ts p = record_last p.record_ping ts p

    abbrev pub wait_next : String → Exec Ping String
    wait_next ts p = wait_ping ts p.ping_delta p

    abbrev pub send_next : String → Exec Ping Unit
    send_next next =
        set_ping_ts next >> on_sender send_ping >> modify (λ p. record p { record_ping = true })

    abbrev pub ping_after : String → Exec Ping Unit
    ping_after ts =
        set_ping_ts ts >> keep_record ts >> on_sender refresh >> wait_next ts >>= send_next

    unfoldable pub ping_round : Exec Ping Unit
    ping_round = send_install_once >>= ping_after

    abbrev pub or_sleep : Result Unit × Ping → Ping
    or_sleep (ok _, p) = p
    or_sleep (err e, p) = (sleep (3600 * 1000000) p).1

    -- One round of `run`, whose exceptions are logged.
    unfoldable pub run_round : Ping → Ping
    run_round p = or_sleep (ping_round p)

-- A new process begins with an empty `Ping`.
abbrev pub restarted : Ping → Ping
restarted p = record p { installed = false; install_ts = none; ping_ts = none; record_ping = false }
