-- ===== src/Socket/Connect.antt =====
-- The constructor of base_socket: when it gives a connected socket, and what it throws.
use stream_client.Common.{
  ◌<◌, ◌≡◌, refl, ap, inl, inr, Bool, true, false, not, Option, none, some, List, ◌∷◌, ◌++◌, map,
  arith, ℤ, if◌then◌else◌, Bool-cases,
}
use stream_client.ErrorCode.{
  ErrorCode, would_block, timed_out, operation_aborted, Throws, Throws-cases, value, thrown, failed,
}
use stream_client.Clock.{IsNow}
use stream_client.Timed.Defs.{Timed, lasting, NeverDue, IsDisarmed, timed_base, release}
use stream_client.Timed.Operation.{
  Event, timer, completes, Running, Outcome, returns, throws, is_would_block, run_one,
  run_until_set,
}
use stream_client.Timed.Deadline.{first_due, first_due-IsNow, IsNow?, AllNow}
use stream_client.Timed.Limits.{
  is_accepted, arms, expiry_under, scope_expire-accepted, scope_expire-refused, release-IsDisarmed,
  release-posted,
}
use stream_client.Timed.Completion.{completed, IsWaiting, run_until_set-completes}
use stream_client.Socket.Defs.{
  BaseSocket, deadline_actor, base_socket, finish_connect, set_options, after_loop,
}

-- The code that the constructor throws, if any: that of the deadline, of the connection, of a socket
-- that is not open, of an option that cannot be set.
abbrev pub connect_error : Option ℤ → ErrorCode → Bool → Throws (Unit {0}) → Option ErrorCode
connect_error (some t) error opened set = some timed_out
connect_error none error opened set =
    if failed error
    then some error
    else if not opened
    then some operation_aborted
    else elim set [ value _ ↦ none | thrown ec ↦ some ec ]

-- A socket that is ready for its first operation.
pub record Established (connect_timeout operation_timeout : ℤ) (out : Outcome BaseSocket)
    : Type 0 where
  pub after : BaseSocket
  pub gives : out ≡ returns after
  pub opened : after.is_open ≡ true
  pub disarmed : IsDisarmed after.timed
  pub still_posted : 0 < after.timed.posted
  pub mode : after.io_timeouted ≡ true
  pub connection_timeout : after.connection_timeout ≡ connect_timeout
  pub io_timeout : after.io_operation_timeout ≡ operation_timeout

abbrev pub Results : ℤ → ℤ → Option ErrorCode → Outcome BaseSocket → Type 0
Results connect_timeout operation_timeout none out =
    Established connect_timeout operation_timeout out
Results connect_timeout operation_timeout (some ec) out = out ≡ throws ec

module _ (from_now : ℤ → ℤ → ℤ) (never_due : NeverDue from_now) (same : Bool)
    (now connect_timeout operation_timeout : ℤ) (opened : Bool) (options : List ErrorCode) where
  abbrev fresh : Timed
  fresh = timed_base from_now now

  abbrev pub connect_expiry : ℤ
  connect_expiry = expiry_under from_now now (lasting connect_timeout) (timed_base from_now now)

  abbrev limited : Timed
  limited = record (timed_base from_now now) { deadline_fired = false; expires_at = connect_expiry }

  abbrev connecting : Running Bool (Unit {0})
  connecting = record {
    timed = limited;
    derived = opened;
    handle = record { armed = false };
    ec = would_block;
    got = tt;
    pending = true;
  }

  abbrev initial : BaseSocket
  initial = record {
    timed = limited;
    is_open = opened;
    connection_timeout = connect_timeout;
    io_operation_timeout = operation_timeout;
    io_timeouted = false;
  }

  abbrev connected : ℤ → BaseSocket
  connected end_time = record initial {
    timed = release from_now end_time (record { armed = arms (lasting connect_timeout) }) limited;
    is_open = opened;
    io_timeouted = true;
  }

  established :
      (end_time : ℤ)
      → IsNow now
      → IsNow end_time
      → opened ≡ true
      → Established connect_timeout operation_timeout (returns (connected end_time))
  unfolding timed_base
  established end_time n k h = record {
    after = connected end_time;
    gives = refl;
    opened = h;
    disarmed =
        release-IsDisarmed from_now never_due now end_time (lasting connect_timeout) limited
          (timed_base from_now now) k (never_due now n) refl;
    still_posted = rw (release-posted from_now never_due) (omega arith);
    mode = refl;
    connection_timeout = refl;
    io_timeout = refl;
  }

  finish_connect-Results :
      (end_time done_time : ℤ) (fired : Option ℤ) (error : ErrorCode)
      → IsNow now
      → IsNow end_time
      → IsNow? fired
      → Results connect_timeout operation_timeout
          (connect_error fired error opened (set_options options))
          (finish_connect from_now same options end_time
            (record { armed = arms (lasting connect_timeout) })
            initial
            (completed from_now deadline_actor (λ _ r. r) same done_time error tt fired connecting))
  unfolding finish_connect run_one deadline_actor timed_base
  finish_connect-Results end_time done_time (some t) error n k m = refl
  finish_connect-Results end_time done_time none error n k m = elim (Bool-cases (failed error)) [
    | inl bad ↦ rw (bad, finish_connect)
    | inr fine ↦ elim (Bool-cases opened) [
      | inr closed ↦ rw (fine, closed, finish_connect)
      | inl open_ ↦ elim (Throws-cases (set_options options)) [
        | inl (u, e) ↦ rw (fine, open_, e, finish_connect) (established end_time n k open_)
        | inr (ec, e) ↦ rw (fine, open_, e, finish_connect)
      ]
    ]
  ]

  connecting-IsWaiting : IsWaiting connecting
  unfolding timed_base
  connecting-IsWaiting = record {
    waits = refl;
    runs = refl;
    not_fired = refl;
    is_posted = omega arith;
  }

  base_socket-starts :
      (events : List (Event (Unit {0}))) (end_time : ℤ)
      → is_accepted (lasting connect_timeout) ≡ true
      → base_socket from_now same now connect_timeout operation_timeout opened events options
          end_time
        ≡ after_loop
            (finish_connect from_now same options end_time
              (record { armed = arms (lasting connect_timeout) })
              initial)
            (run_until_set from_now deadline_actor (λ _ r. r) same events connecting)
  unfolding base_socket
  base_socket-starts events end_time accepted =
      let e =
        scope_expire-accepted from_now now (lasting connect_timeout) (timed_base from_now now)
          accepted in
      rw (ap (λ x. x.1) e, base_socket, ap (λ x. x.0) e)

  -- Under an accepted timeout, and where the connection does not report would_block, the
  -- constructor of base_socket throws timed_out if the deadline fires before the connection
  -- completes, and otherwise the connection's error, operation_aborted for a socket that is not
  -- open, or the error of an option; without any of these it gives an open socket with the given
  -- timeouts, the timeouts of its operations switched on and no deadline left on the timer.
  pub base_socket-Results :
      (ts : List ℤ) (done_time end_time : ℤ) (error : ErrorCode) (es : List (Event (Unit {0})))
      → is_accepted (lasting connect_timeout) ≡ true
      → is_would_block same error ≡ false
      → IsNow now
      → AllNow ts
      → IsNow end_time
      → Results connect_timeout operation_timeout
          (connect_error (first_due connect_expiry ts) error opened (set_options options))
          (base_socket from_now same now connect_timeout operation_timeout opened
            (map timer ts ++ completes done_time error tt ∷ es)
            options
            end_time)
  unfolding after_loop
  base_socket-Results ts done_time end_time error es accepted final n times k =
      rw
        (
          base_socket-starts (map timer ts ++ completes done_time error tt ∷ es) end_time accepted,
          run_until_set-completes from_now never_due deadline_actor (λ _ r. r) same ts done_time
              error tt es connecting connecting-IsWaiting times final,
        )
        (finish_connect-Results end_time done_time (first_due connect_expiry ts) error n k
          (first_due-IsNow connect_expiry ts times))

  -- A timeout under a microsecond makes the constructor throw before it connects.
  pub base_socket-refused :
      (events : List (Event (Unit {0}))) (end_time : ℤ)
      → is_accepted (lasting connect_timeout) ≡ false
      → base_socket from_now same now connect_timeout operation_timeout opened events options
          end_time
        ≡ throws timed_out
  unfolding base_socket
  base_socket-refused events end_time refused = rw (
    scope_expire-refused from_now now (lasting connect_timeout) (timed_base from_now now) refused,
    base_socket,
  )
