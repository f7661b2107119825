-- ===== src/Timed/Limits.antt =====
-- scope_expire: which limits it accepts, and the deadline that it sets.
use stream_client.Common.{
  ◌≡◌, refl, inl, inr, Bool, true, false, not, arith, if◌then◌else◌, Bool-cases, ℤ, ltb_ℤ, eqb_ℤ,
}
use stream_client.ErrorCode.{timed_out, value, thrown}
use stream_client.Clock.{IsNow, k_infinite_duration, k_duration_resolution}
use stream_client.Timed.Defs.{
  Timed, Limit, lasting, until, Expiration, expiration, scope_expire, release, NeverDue, IsDisarmed,
}

-- Durations under a microsecond are refused, all time points are taken.
abbrev pub is_accepted : Limit → Bool
is_accepted (lasting duration) = not (ltb_ℤ duration k_duration_resolution)
is_accepted (until deadline) = true

abbrev pub arms : Limit → Bool
arms (lasting duration) = not (eqb_ℤ duration k_infinite_duration)
arms (until deadline) = true

module _ (from_now : ℤ → ℤ → ℤ) where
  -- The timer's expiry under a limit: an infinite duration leaves it as it is.
  abbrev pub expiry_under : ℤ → Limit → Timed → ℤ
  expiry_under now (lasting duration) t =
      if eqb_ℤ duration k_infinite_duration then t.expires_at else from_now now duration
  expiry_under now (until deadline) t = deadline

  pub scope_expire-accepted :
      (now : ℤ) (limit : Limit) (t : Timed)
      → is_accepted limit ≡ true
      → scope_expire from_now now limit t ≡ (
        record t { deadline_fired = false; expires_at = expiry_under now limit t },
        value (record { armed = arms limit }),
      )
  unfolding scope_expire expiration
  scope_expire-accepted now (lasting duration) t h = ground arith
  scope_expire-accepted now (until deadline) t h = refl

  -- A duration under a microsecond, negative ones included, is an exception, not an error code.
  pub scope_expire-refused :
      (now : ℤ) (limit : Limit) (t : Timed)
      → is_accepted limit ≡ false
      → scope_expire from_now now limit t ≡ (record t { deadline_fired = false }, thrown timed_out)
  unfolding scope_expire expiration
  scope_expire-refused now (lasting duration) t h = ground arith
  scope_expire-refused now (until deadline) t h = cc

module _ (from_now : ℤ → ℤ → ℤ) (never_due : NeverDue from_now) where
  -- When the expiration ends, no deadline is left on a timer that had none before, or whose deadline
  -- fired.
  pub release-IsDisarmed :
      (now end_time : ℤ) (limit : Limit) (t old : Timed)
      → IsNow end_time
      → IsDisarmed old
      → t.expires_at ≡ expiry_under from_now now limit old
      → IsDisarmed (release from_now end_time (record { armed = arms limit }) t)
  unfolding release
  release-IsDisarmed now end_time (until deadline) t old n idle e u k = never_due end_time n u k
  release-IsDisarmed now end_time (lasting d) t old n idle e u k =
      elim (Bool-cases (eqb_ℤ d k_infinite_duration)) [
        | inl infinite ↦ rw (infinite, e, infinite) (idle u k)
        | inr finite ↦ rw finite (never_due end_time n u k)
      ]

  pub release-posted :
      (now : ℤ) (e : Expiration) (t : Timed) → (release from_now now e t).posted ≡ t.posted
  unfolding release
  release-posted now e t = ground arith

  pub release_fired-IsDisarmed :
      (fired_time end_time : ℤ) (limit : Limit) (t : Timed)
      → IsNow end_time
      → IsNow fired_time
      → t.expires_at ≡ from_now fired_time k_infinite_duration
      → IsDisarmed (release from_now end_time (record { armed = arms limit }) t)
  unfolding release
  release_fired-IsDisarmed fired_time end_time limit t n m e u k = elim (Bool-cases (arms limit)) [
    | inl armed ↦ rw armed (never_due end_time n u k)
    | inr not_armed ↦ rw (not_armed, e) (never_due fired_time m u k)
  ]
