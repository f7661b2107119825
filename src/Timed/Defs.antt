-- ===== src/Timed/Defs.antt =====
-- include/stream-client/detail/timed_base.hpp.
-- `from_now now d` is the expiry that `expires_from_now(d)` of the asio timer sets at `now`. What the
-- class derived from timed_base adds is a state `D`, which its deadline_actor changes.
use stream_client.Common.{
  ℕ, suc, ◌-◌, Bool, true, false, if◌then◌else◌, ℤ, ◌<ℤ◌, ltb_ℤ, leb_ℤ, eqb_ℤ,
}
use stream_client.ErrorCode.{timed_out, Throws, value, thrown}
use stream_client.Clock.{k_infinite_duration, k_duration_resolution, IsNow}

-- `posted`: the waits on the timer whose handler has not run.
pub record Timed : Type 0 where
  pub deadline_fired : Bool
  pub expires_at : ℤ
  pub posted : ℕ

-- The argument of a timed operation: a duration, or a time point.
pub data Limit : Type 0 where
  lasting : ℤ → Limit
  until : ℤ → Limit

-- The RAII handle: whether its pointer to the timer is set.
pub record Expiration : Type 0 where
  pub armed : Bool

module _ (from_now : ℤ → ℤ → ℤ) where
  -- The default constructor.
  unfoldable pub timed_base : ℤ → Timed
  timed_base now = record {
    deadline_fired = false;
    expires_at = from_now now k_infinite_duration;
    posted = 1;
  }

  -- The constructors of expiration, over a timer.
  unfoldable pub expiration : ℤ → Limit → Timed → Timed × Throws Expiration
  expiration now (lasting duration) t =
      if ltb_ℤ duration k_duration_resolution
      then (t, thrown timed_out)
      else if eqb_ℤ duration k_infinite_duration
      then (t, value (record { armed = false }))
      else (record t { expires_at = from_now now duration }, value (record { armed = true }))
  expiration now (until deadline) t =
      (record t { expires_at = deadline }, value (record { armed = true }))

  unfoldable pub scope_expire : ℤ → Limit → Timed → Timed × Throws Expiration
  unfolding expiration
  scope_expire now limit t = expiration now limit (record t { deadline_fired = false })

  -- The destructor of expiration.
  unfoldable pub release : ℤ → Expiration → Timed → Timed
  release now e t =
      if e.armed then record t { expires_at = from_now now k_infinite_duration } else t

  unfoldable pub post_deadline : Timed → Timed
  post_deadline t = record t { posted = suc t.posted }

  -- check_deadline, the handler of a posted wait.
  unfoldable pub check_deadline : {D : Type 0} → (D → D) → ℤ → Timed × D → Timed × D
  unfolding post_deadline
  check_deadline deadline_actor now (t, d) =
      let ran = record t { posted = t.posted - 1 } in
      if leb_ℤ t.expires_at now
      then (
        post_deadline
            (record ran { deadline_fired = true; expires_at = from_now now k_infinite_duration }),
        deadline_actor d,
      )
      else (post_deadline ran, d)

-- Documented behaviour of the timer: an infinite wait is not over at any reading of the clock.
abbrev pub NeverDue : (ℤ → ℤ → ℤ) → Type 0
NeverDue from_now =
    (now : ℤ)
    → IsNow now
    → (t : ℤ) → t <ℤ k_infinite_duration
    → t <ℤ from_now now k_infinite_duration

-- No deadline is set: the timer is not due at any reading of the clock.
abbrev pub IsDisarmed : Timed → Type 0
IsDisarmed t = (now : ℤ) → now <ℤ k_infinite_duration → now <ℤ t.expires_at
