-- ===== src/Analytics/Install.antt =====
-- rawfile/analytics/ga4/ping.py: the install event is sent until it is recorded, and not again.
use rawfile_localpv.Prelude.{
  ℕ, suc, ◌+◌, ltb, ◌≡◌, refl, ap, ◌∙◌, Bool, true, false, not, ◌||◌, Option, none, some, List, [],
  ◌∷◌, String, Dict, lookup, contains, if◌then◌else◌, str_eq, Bool-cases, inl, inr,
  lookup-insert_self,
}
use rawfile_localpv.Json.{null, text, Json}
use rawfile_localpv.Errors.{Exception, Result, ok, err}
use rawfile_localpv.Exec.{Exec, ◌>>=◌, ◌>>◌, modify, proceed, proceed-keeps, or_raise}
use rawfile_localpv.Node.Metadata.{get_item}
use rawfile_localpv.Cluster.ConfigMaps.{
  Api, data_of, write_config_map, version_code, read_node_info, namespace_uid, node_count,
}
use rawfile_localpv.Cluster.Written.{
  IsWritten, write_config_map-IsWritten, IsSame, IsReader, bind-IsReader, request-IsReader,
  or_raise-IsReader, IsRead, read_config_map-IsRead,
}
use rawfile_localpv.Analytics.Builder.{category}
use rawfile_localpv.Analytics.Events.{
  Event, Sender, on_api, put_api, new_version_set, describe_version, identify_version,
  count_version, refresh, text_of, send, event_of, upload_after, send_ping,
}
use rawfile_localpv.Cluster.Pods.{given}
use rawfile_localpv.Analytics.Ping.{
  Ping, on_sender, put_sender, tick, clock, configmap, install_ts_key, ping_ts_key, set_ping_ts,
  install_recorded, install_once, send_install_once, wait_ping, record_last, ping_round, ping_after,
  keep_record, wait_next, send_next, or_sleep, run_round, restarted,
}

abbrev is_install : Event → Bool
is_install e = str_eq (text_of (get_item null "event_category" e.params)) "install"

-- The number of the install events that were sent.
abbrev pub installs : List Event → ℕ
installs [] = 0
installs (e ∷ es) = if is_install e then suc (installs es) else installs es

read_node_info-IsReader : (nodeid : String) → IsReader (read_node_info nodeid)
unfolding read_node_info
read_node_info-IsReader nodeid =
    request-IsReader _ (λ a. or_raise-IsReader (lookup nodeid a.nodes) _ a)

namespace_uid-IsReader : (name : String) → IsReader (namespace_uid name)
unfolding namespace_uid
namespace_uid-IsReader name =
    request-IsReader _ (λ a. or_raise-IsReader (lookup name a.namespaces) _ a)

version_code-IsReader : IsReader version_code
unfolding version_code
version_code-IsReader = request-IsReader _ (λ a. refl)

node_count-IsReader : IsReader node_count
unfolding node_count
node_count-IsReader = request-IsReader _ (λ a. refl)

new_version_set-IsReader : (nodeid : String) → IsReader (new_version_set nodeid)
unfolding new_version_set
new_version_set-IsReader nodeid =
    bind-IsReader version_code (describe_version nodeid) version_code-IsReader (λ v.
      bind-IsReader (read_node_info nodeid) (identify_version v) (read_node_info-IsReader nodeid)
        (λ i.
          bind-IsReader (namespace_uid "default") (count_version v i) (namespace_uid-IsReader _)
            (λ u. bind-IsReader node_count _ node_count-IsReader (λ c a. refl))))

text_of-category :
    (c : String) (b : Json) → text_of (get_item null "event_category" (category c b)) ≡ c
unfolding category
text_of-category c b =
    ap (λ o. text_of (elim o [ none ↦ null | some x ↦ x ]))
      (lookup-insert_self "event_category" (text c) b)

module _ (ts : String) (n : ℕ) where
  -- The time of the installation is recorded, and `n` install events were sent.
  abbrev pub IsInstalled : Sender → Type 0
  IsInstalled s =
      (lookup install_ts_key (data_of configmap s.api) ≡ some ts) × (installs s.sent ≡ n)

  put_api-IsInstalled :
      {A : Type 0} (s : Sender) (r : Result A × Api)
      → IsSame s.api r
      → IsInstalled s
      → IsInstalled (put_api s r).1
  put_api-IsInstalled s (r, b) same h = (rw same h.0, h.1)

  refresh-IsInstalled : (s : Sender) → IsInstalled s → IsInstalled (refresh s).1
  unfolding refresh
  refresh-IsInstalled s h =
      proceed-keeps IsInstalled _ _
        (put_api-IsInstalled s (new_version_set s.nodeid s.api)
          (new_version_set-IsReader s.nodeid s.api) h)
        (λ v t k. k)

  upload_after-IsInstalled :
      (us : List Bool) (e : Event) (s : Sender)
      → is_install e ≡ false
      → IsInstalled s
      → IsInstalled (upload_after us e s).1
  upload_after-IsInstalled [] e s ne h = (h.0, rw ne h.1)
  upload_after-IsInstalled (true ∷ us) e s ne h = (h.0, rw ne h.1)
  upload_after-IsInstalled (false ∷ us) e s ne h = h

  send-IsInstalled :
      (s : Sender)
      → is_install (event_of s.builder) ≡ false
      → IsInstalled s
      → IsInstalled (send s).1
  unfolding send
  send-IsInstalled s ne h =
      elim (Bool-cases
        (not (contains "event_category" s.builder) || not (contains "engine_name" s.builder))) [
          | inl y ↦ rw y h
          | inr y ↦ rw y (upload_after-IsInstalled s.uploads (event_of s.builder) s ne h)
        ]

  send_ping-IsInstalled : (s : Sender) → IsInstalled s → IsInstalled (send_ping s).1
  unfolding send_ping
  send_ping-IsInstalled s h =
      send-IsInstalled (record s { builder = category "rawfile-ping" s.builder })
        (rw (text_of-category "rawfile-ping" s.builder) refl) h

  write_ping-IsInstalled :
      (value : String) (s : Sender)
      → IsInstalled s
      → IsInstalled (on_api (write_config_map configmap ping_ts_key value true) s).1
  write_ping-IsInstalled value s h =
      written _ (write_config_map-IsWritten configmap ping_ts_key value true s.api)
    where
      written :
          (r : Result Unit × Api)
          → IsWritten configmap ping_ts_key value true s.api r
          → IsInstalled (put_api s r).1
      written (ok x, b) w = (w.0 install_ts_key ∙ h.0, h.1)
      written (err e, b) w = (rw w h.0, h.1)

  -- The same of a call of the loop.
  abbrev Stays : {A : Type 0} → Exec Ping A → Type 0
  Stays m = (p : Ping) → IsInstalled p.sender → IsInstalled (m p).1.sender

  bind-Stays :
      {A B : Type 0} (m : Exec Ping A) (f : A → Exec Ping B)
      → Stays m
      → ((x : A) → Stays (f x))
      → Stays (m >>= f)
  bind-Stays m f h g p i = proceed-keeps (λ q. IsInstalled q.sender) f (m p) (h p i) g

  on_sender-Stays :
      {A : Type 0} (m : Exec Sender A)
      → ((s : Sender) → IsInstalled s → IsInstalled (m s).1)
      → Stays (on_sender m)
  on_sender-Stays m h p i = h p.sender i

  clock-Stays : Stays clock
  clock-Stays p i = ticked p.ticks p i
    where
      ticked : (ts : List ℕ) (p : Ping) → IsInstalled p.sender → IsInstalled (tick ts p).1.sender
      ticked [] p i = i
      ticked (t ∷ ts) p i = i

  or_raise-Stays : {A : Type 0} (o : Option A) (e : Exception) → Stays (or_raise o e)
  or_raise-Stays none e p i = i
  or_raise-Stays (some a) e p i = i

  if-Stays :
      {A : Type 0} (b : Bool) (m k : Exec Ping A) → Stays m → Stays k → Stays (if b then m else k)
  if-Stays true m k h g = h
  if-Stays false m k h g = g

  -- Nothing is sent once the time of the installation is recorded.
  install_once-Stays : (strftime : ℕ → String) (o : Option String) → Stays (install_once strftime o)
  install_once-Stays strftime (some last) p i = i
  install_once-Stays strftime none p i = read _ (read_config_map-IsRead configmap p.sender.api)
    where
      recorded :
          (d : Dict String) (b : Api)
          → IsRead configmap p.sender.api (ok d, b)
          → lookup install_ts_key d ≡ some ts
          → IsInstalled
              (install_recorded strftime d
                (lookup install_ts_key d)
                (record p { sender = record p.sender { api = b } })).1.sender
      recorded d b w e = rw e (rw w.1 i.0, i.1)

      read :
          (r : Result (Dict String) × Api)
          → IsRead configmap p.sender.api r
          → IsInstalled
              (proceed
                (λ entries. install_recorded strftime entries (lookup install_ts_key entries))
                (put_sender p (put_api p.sender r))).1.sender
      read (ok d, b) w = recorded d b w (rw w.0 i.0)
      read (err e, b) w = (rw w i.0, i.1)

  module _ (strftime : ℕ → String) (strptime : String → Option ℕ) where
    wait_ping-Stays :
        (last : String) (interval : ℕ) → Stays (wait_ping strftime strptime last interval)
    unfolding wait_ping
    wait_ping-Stays last interval =
        bind-Stays (or_raise (strptime last) _) _ (or_raise-Stays (strptime last) _) (λ t.
          bind-Stays clock _ clock-Stays
            (λ now. if-Stays (ltb now (t + interval)) _ _ (λ p i. i) (λ p i. i)))

    record_last-Stays : (b : Bool) (last : String) → Stays (record_last strftime strptime b last)
    record_last-Stays false last p = λ i. i
    record_last-Stays true last p =
        let m : Exec Sender Unit = on_api (write_config_map configmap ping_ts_key last true) in
        bind-Stays (on_sender m) _ (on_sender-Stays m (write_ping-IsInstalled last)) (λ _ p i. i) p

    send_install_once-Stays : Stays (send_install_once strftime)
    unfolding send_install_once
    send_install_once-Stays p i = install_once-Stays strftime (given p.ping_ts) p i

    send_next-Stays : (next : String) → Stays (send_next strftime strptime next)
    send_next-Stays next =
        bind-Stays (set_ping_ts next >> on_sender send_ping)
          (λ _. modify (λ p. record p { record_ping = true }))
          (bind-Stays (set_ping_ts next) (λ _. on_sender send_ping) (λ p i. i)
            (λ _. on_sender-Stays send_ping send_ping-IsInstalled))
          (λ _ p i. i)

    ping_after-Stays : (last : String) → Stays (ping_after strftime strptime last)
    ping_after-Stays last =
        let keep = keep_record strftime strptime last in
        let set : Exec Ping Unit = set_ping_ts last in
        let wait = wait_next strftime strptime last in
        bind-Stays (set >> keep >> on_sender refresh >> wait) (send_next strftime strptime)
          (bind-Stays (set >> keep >> on_sender refresh) (λ _. wait)
            (bind-Stays (set >> keep) (λ _. on_sender refresh)
              (bind-Stays set (λ _. keep) (λ p i. i)
                (λ _ p i. record_last-Stays p.record_ping last p i))
              (λ _. on_sender-Stays refresh refresh-IsInstalled))
            (λ _ p i. wait_ping-Stays last p.ping_delta p i))
          send_next-Stays

    ping_round-Stays : Stays (ping_round strftime strptime)
    unfolding ping_round
    ping_round-Stays =
        bind-Stays (send_install_once strftime) (ping_after strftime strptime)
          send_install_once-Stays ping_after-Stays

    run_round-IsInstalled :
        (p : Ping) → IsInstalled p.sender → IsInstalled (run_round strftime strptime p).sender
    unfolding run_round
    run_round-IsInstalled p i = slept (ping_round strftime strptime p) (ping_round-Stays p i)
      where
        slept :
            (r : Result Unit × Ping)
            → IsInstalled r.1.sender
            → IsInstalled (or_sleep strftime strptime r).sender
        slept (ok x, q) i = i
        slept (err e, q) i = i

module _ (strftime : ℕ → String) (strptime : String → Option ℕ) where
  -- What the process does, over its rounds and its restarts, from `p` on.
  pub data Reach (p : Ping) : Ping → Type 0 where
    start : Reach p p
    round : {q : Ping} → Reach p q → Reach p (run_round strftime strptime q)
    restart : {q : Ping} → Reach p q → Reach p (restarted q)

  -- Once the time of the installation stands in the config map it stays there unchanged, and no
  -- install event is sent again, in however many rounds and restarts of the process and whichever
  -- requests fail.
  pub Reach-IsInstalled :
      (ts : String) (p q : Ping)
      → Reach p q
      → lookup install_ts_key (data_of configmap p.sender.api) ≡ some ts
      → (lookup install_ts_key (data_of configmap q.sender.api) ≡ some ts)
        × (installs q.sender.sent ≡ installs p.sender.sent)
  Reach-IsInstalled ts p q r e = go r
    where
      go : {q : Ping} → Reach p q → IsInstalled ts (installs p.sender.sent) q.sender
      go start = (e, refl)
      go (round {q} r) =
          run_round-IsInstalled ts (installs p.sender.sent) strftime strptime q (go r)
      go (restart r) = go r
