-- ===== src/Ssl/Modes.antt =====
-- What a call of the TLS stream under a limit leaves of the socket below.
use stream_client.Common.{◌≡◌, refl, ap, inl, inr, ℕ, true, false, arith, ℤ, ◌⊎◌, ◌≢◌}
use stream_client.ErrorCode.{ErrorCode, success, stream_truncated, timed_out, Throws, value, thrown}
use stream_client.Clock.{IsNow, k_infinite_duration}
use stream_client.Timed.Defs.{Limit, NeverDue, IsDisarmed, release}
use stream_client.Timed.Limits.{
  is_accepted, arms, expiry_under, scope_expire-accepted, scope_expire-refused,
}
use stream_client.Socket.Defs.{BaseSocket, io_timeout, close}
use stream_client.Ssl.Defs.{limited, write_some, read_some, close_tls, shutdown_error}

-- The socket below as the TLS stream finds it.
abbrev pub under_limit : (from_now : ℤ → ℤ → ℤ) → ℤ → Limit → BaseSocket → BaseSocket
under_limit from_now now limit s = record s {
  timed = record (s.timed) {
    deadline_fired = false;
    expires_at = expiry_under from_now now limit s.timed;
  };
  io_timeouted = false;
}

-- What such a call gives: the socket below had no timeout of its own meanwhile, what the TLS stream
-- reports comes back, the mode is the old one and no deadline is left.
pub record Limits {A : Type 0} (from_now : ℤ → ℤ → ℤ) (now : ℤ) (limit : Limit)
    (layer : BaseSocket → BaseSocket × A × ErrorCode) (s : BaseSocket)
    (r : BaseSocket × Throws (A × ErrorCode)) : Type 0 where
  pub untimed : io_timeout (under_limit from_now now limit s) ≡ k_infinite_duration
  pub reports :
      r.1
      ≡ value (
        (layer (under_limit from_now now limit s)).1,
        (layer (under_limit from_now now limit s)).2,
      )
  pub same_mode : r.0.io_timeouted ≡ s.io_timeouted
  pub disarmed : IsDisarmed r.0.timed

module _ {A : Type 0} (from_now : ℤ → ℤ → ℤ) (never_due : NeverDue from_now) (now : ℤ)
    (limit : Limit) (layer : BaseSocket → BaseSocket × A × ErrorCode) (end_time : ℤ)
    (s : BaseSocket) where
  pub limited_lem :
      is_accepted limit ≡ true
      → let done = layer (under_limit from_now now limit s) in
        limited from_now now limit layer end_time s ≡ (
          record (done.0) {
            timed = release from_now end_time (record { armed = arms limit }) done.0.timed;
            io_timeouted = s.io_timeouted;
          },
          value (done.1, done.2),
        )
  unfolding limited
  limited_lem h =
      let e = scope_expire-accepted from_now now limit s.timed h in
      rw (ap (λ x. x.1) e, limited, ap (λ x. x.0) e)

  pub limited-Limits :
      is_accepted limit ≡ true
      → arms limit ≡ true
      → IsNow end_time
      → Limits from_now now limit layer s (limited from_now now limit layer end_time s)
  unfolding io_timeout release
  limited-Limits h armed n = rw (limited_lem h) (record {
    untimed = refl;
    reports = refl;
    same_mode = refl;
    disarmed = λ u k. rw armed (never_due end_time n u k);
  })

  -- A refused limit is an exception, after which the mode is off.
  pub limited-refused :
      is_accepted limit ≡ false
      → let r = limited from_now now limit layer end_time s in
        (r.1 ≡ thrown timed_out)
        × (r.0.io_timeouted ≡ false)
        × (r.0.io_operation_timeout ≡ s.io_operation_timeout)
  unfolding limited
  limited-refused h =
      let e = scope_expire-refused from_now now limit s.timed h in
      rw (ap (λ x. x.1) e, limited) (refl, refl, refl)

-- close() of the TLS socket closes the socket below, and reports what closing says, exactly where
-- the shutdown reports success or a truncated stream; otherwise it reports the shutdown's error and
-- leaves the socket as it was.
pub close_tls-result :
    (shut closed : ErrorCode) (s : BaseSocket)
    → (((shut ≡ success) ⊎ (shut ≡ stream_truncated))
        × (close_tls shut closed s ≡ (record s { is_open = false }, closed)))
      ⊎ ((shut ≢ success) × (shut ≢ stream_truncated) × (close_tls shut closed s ≡ (s, shut)))
unfolding close_tls close shutdown_error
close_tls-result success closed s = inl (inl refl, refl)
close_tls-result stream_truncated closed s = inl (inr refl, refl)
close_tls-result shut closed s = inr (λ h. ground arith, λ h. ground arith, refl)

module _ (from_now : ℤ → ℤ → ℤ) (never_due : NeverDue from_now) (now : ℤ) (limit : Limit)
    (layer : BaseSocket → BaseSocket × ℕ × ErrorCode) (end_time : ℤ) (s : BaseSocket) where
  -- Under an accepted limit other than the infinite duration, write_some and read_some of the TLS
  -- socket give what the TLS stream reports; the socket below has no timeout of its own during the
  -- call, its mode is the old one after it, and no deadline is left on its timer.
  pub write_some_tls-Limits :
      is_accepted limit ≡ true
      → arms limit ≡ true
      → IsNow end_time
      → Limits from_now now limit layer s (write_some from_now now limit layer end_time s)
        × Limits from_now now limit layer s (read_some from_now now limit layer end_time s)
  unfolding write_some read_some
  write_some_tls-Limits h armed n =
      let both = limited-Limits from_now never_due now limit layer end_time s h armed n in
      (both, both)

  -- If the limit is refused, write_some of the TLS socket throws timed_out and leaves the timeouts
  -- of the socket below switched off.
  pub write_some-forgets_mode :
      is_accepted limit ≡ false
      → let r = write_some from_now now limit layer end_time s in
        (r.1 ≡ thrown timed_out) × (io_timeout r.0 ≡ k_infinite_duration)
  unfolding write_some io_timeout
  write_some-forgets_mode h =
      let r = limited-refused from_now never_due now limit layer end_time s h in (r.0, rw r.1)
