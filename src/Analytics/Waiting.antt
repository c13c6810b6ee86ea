-- ===== src/Analytics/Waiting.antt =====
-- rawfile/analytics/ga4/ping.py: how long the loop waits for its next ping.
use rawfile_localpv.Prelude.{
  ℕ, ◌+◌, ◌-◌, ◌≤◌, ◌≡◌, refl, arith, Option, none, some, List, [], ◌∷◌, String, if◌then◌else◌, ltb,
  ltb→lt, Bool-cases, inl, inr,
}
use rawfile_localpv.Errors.{Result, ok, err, value_error}
use rawfile_localpv.Exec.{pure, proceed}
use rawfile_localpv.Analytics.Ping.{Ping, tick, wait_until, wait_ping}

module _ (strftime : ℕ → String) (strptime : String → Option ℕ) where
  -- The call has given the text of a time that has come and is not before `target`.
  abbrev pub IsLater : ℕ → Result String × Ping → Type 0
  IsLater target r = (u : ℕ) × (r.0 ≡ ok (strftime u)) × (target ≤ u) × (u ≤ r.1.now)

  waited-IsLater :
      (target now : ℕ) (q : Ping)
      → q.now ≡ now
      → IsLater target (
          proceed
            (λ now.
              if ltb now target
              then (λ p. (ok (strftime target), record p { now = p.now + (target - now) }))
              else pure (strftime now))
            (ok now, q))
  waited-IsLater target now q e = elim (Bool-cases (ltb now target)) [
    | inl y ↦ rw y (target, refl, omega arith, rw e (omega (arith, ltb→lt now target y)))
    | inr y ↦ rw y (now, refl, ground (arith, y), omega (arith, e))
  ]

  wait_until-IsLater :
      (target : ℕ) (p : Ping) → IsLater target (wait_until strftime strptime target p)
  wait_until-IsLater target p = ticked p.ticks
    where
      ticked :
          (ts : List ℕ)
          → IsLater target (
              proceed
                (λ now.
                  if ltb now target
                  then (λ p. (ok (strftime target), record p { now = p.now + (target - now) }))
                  else pure (strftime now))
                (tick ts p))
      ticked [] = waited-IsLater target p.now p refl
      ticked (t ∷ ts) = waited-IsLater target (p.now + t) _ refl

  -- Waiting from a time that can be read ends with a time that has come and is at least the interval
  -- after it, whether the call slept or was late already; a text that is no time is refused, with the
  -- clock unread.
  pub wait_ping-IsLater :
      (last : String) (interval : ℕ) (p : Ping)
      → ((t : ℕ)
          → strptime last ≡ some t
          → IsLater (t + interval) (wait_ping strftime strptime last interval p))
        × (strptime last ≡ none
            → wait_ping strftime strptime last interval p ≡ (err value_error, p))
  unfolding wait_ping
  wait_ping-IsLater last interval p =
      (λ t e. rw e (wait_until-IsLater (t + interval) p), λ e. rw e refl)
