-- ===== src/Socket/Timeouts.antt =====
-- What the timed operations of stream_socket guarantee.
use stream_client.Common.{
  ℕ, ◌+◌, ◌<◌, ◌≡◌, refl, Bool, true, false, Option, none, some, List, ◌∷◌, ◌++◌, map, arith, ℤ,
}
use stream_client.ErrorCode.{ErrorCode, would_block, timed_out, value, thrown}
use stream_client.Clock.{IsNow}
use stream_client.Timed.Defs.{Limit, NeverDue, IsDisarmed}
use stream_client.Timed.Operation.{
  Event, timer, completes, Running, Outcome, returns, throws, is_would_block, is_try_again, run_one,
}
use stream_client.Timed.Deadline.{first_due, first_due-IsNow, IsNow?, AllNow, fire}
use stream_client.Timed.Limits.{
  is_accepted, arms, expiry_under, scope_expire-accepted, scope_expire-refused, release-IsDisarmed,
  release_fired-IsDisarmed, release-posted,
}
use stream_client.Timed.Completion.{
  completed, IsWaiting, run_until_set-completes, run_retrying-completes,
}
use stream_client.Socket.Defs.{BaseSocket, deadline_actor}
use stream_client.Socket.Stream.{
  Transfer, concluded, start_operation, send, receive, write_some, read_some,
}

-- The reported code: the deadline, if it fired, hides the operation's own.
abbrev pub reported : Option ℤ → ErrorCode → ErrorCode
reported none error = error
reported (some t) error = timed_out

-- How an operation on `s` ends that transfers `n` bytes, its deadline fired or not: the socket is
-- closed exactly if it fired, no deadline is left on the timer, the settings stay.
pub record Transferred (s : BaseSocket) (fired : Option ℤ) (error : ErrorCode) (n : ℕ)
    (out : Outcome Transfer) : Type 0 where
  pub after : BaseSocket
  pub gives : out ≡ returns (after, n, reported fired error)
  pub opened : after.is_open ≡ elim fired [ none ↦ s.is_open | some _ ↦ false ]
  pub disarmed : IsDisarmed after.timed
  pub still_posted : 0 < after.timed.posted
  pub same_timeout : after.io_operation_timeout ≡ s.io_operation_timeout
  pub same_mode : after.io_timeouted ≡ s.io_timeouted

-- The loop's variables at the start.
abbrev pub started : (from_now : ℤ → ℤ → ℤ) → ℤ → Limit → BaseSocket → Running Bool ℕ
started from_now now limit s = record {
  timed = record (s.timed) {
    deadline_fired = false;
    expires_at = expiry_under from_now now limit s.timed;
  };
  derived = s.is_open;
  handle = record { armed = arms limit };
  ec = would_block;
  got = 0;
  pending = true;
}

pub start_operation-accepted :
    (from_now : ℤ → ℤ → ℤ) (now : ℤ) (limit : Limit) (s : BaseSocket)
    → is_accepted limit ≡ true
    → start_operation from_now now limit s ≡ value (started from_now now limit s)
unfolding start_operation
start_operation-accepted from_now now limit s h =
    ground (arith, scope_expire-accepted from_now now limit s.timed h)

abbrev socket_after : BaseSocket → Running Bool ℕ → BaseSocket
socket_after s r = record s { timed = r.timed; is_open = r.derived }

module _ (from_now : ℤ → ℤ → ℤ) (never_due : NeverDue from_now) (store : ℕ → ℕ → ℕ)
    (store_first : (n : ℕ) → store 0 n ≡ n) (same : Bool) where
  concluded-Transferred :
      (now end_time : ℤ) (limit : Limit) (s : BaseSocket) (fired : Option ℤ) (error : ErrorCode)
      (n : ℕ)
      → IsDisarmed s.timed
      → 0 < s.timed.posted
      → IsNow end_time
      → IsNow? fired
      → Transferred s fired error n (
          concluded s (
            completed from_now deadline_actor store same end_time error n fired
              (started from_now now limit s)))
  unfolding concluded run_one deadline_actor
  concluded-Transferred now end_time limit s none error n idle posted clock times = record {
    after = socket_after s (
        completed from_now deadline_actor store same end_time error n none
          (started from_now now limit s));
    gives = rw (store_first n);
    opened = refl;
    disarmed =
        release-IsDisarmed from_now never_due now end_time limit
          (started from_now now limit s).timed s.timed clock idle refl;
    still_posted = rw (release-posted from_now never_due) posted;
    same_timeout = refl;
    same_mode = refl;
  }
  concluded-Transferred now end_time limit s (some t) error n idle posted clock times = record {
    after = socket_after s (
        completed from_now deadline_actor store same end_time error n (some t)
          (started from_now now limit s));
    gives = rw (store_first n);
    opened = refl;
    disarmed =
        release_fired-IsDisarmed from_now never_due t end_time limit
          (fire from_now deadline_actor store t (started from_now now limit s)).timed clock times
          refl;
    still_posted = rw (release-posted from_now never_due) posted;
    same_timeout = refl;
    same_mode = refl;
  }

-- A socket between two operations, and a schedule for the next: the timer's readings of the clock,
-- and the completion. `final`: the completion is no request to wait or try again.
pub record IsScheduled (s : BaseSocket) (ts : List ℤ) (end_time : ℤ) : Type 0 where
  pub disarmed : IsDisarmed s.timed
  pub posted : 0 < s.timed.posted
  pub readings : AllNow ts
  pub ends : IsNow end_time

module _ (from_now : ℤ → ℤ → ℤ) (never_due : NeverDue from_now) (same : Bool) (now : ℤ)
    (limit : Limit) (ts : List ℤ) (end_time : ℤ) (error : ErrorCode) (n : ℕ) (es : List (Event ℕ))
    (s : BaseSocket) (scheduled : IsScheduled s ts end_time) (accepted : is_accepted limit ≡ true)
    (final : is_would_block same error ≡ false) where
  -- The deadline that is set, and when it fires, if the completion does not come first.
  abbrev pub fires : Option ℤ
  fires = first_due (expiry_under from_now now limit s.timed) ts

  abbrev pub schedule : List (Event ℕ)
  schedule = map timer ts ++ completes end_time error n ∷ es

  start-IsWaiting : IsWaiting (started from_now now limit s)
  start-IsWaiting = record {
    waits = refl;
    runs = refl;
    not_fired = refl;
    is_posted = scheduled.posted;
  }

  tail :
      (store : ℕ → ℕ → ℕ)
      → ((m : ℕ) → store 0 m ≡ m)
      → Transferred s fires error n (
          concluded s (
            completed from_now deadline_actor store same end_time error n fires
              (started from_now now limit s)))
  tail store store_first =
      concluded-Transferred from_now never_due store store_first same now end_time limit s fires
        error n scheduled.disarmed scheduled.posted scheduled.ends
        (first_due-IsNow (expiry_under from_now now limit s.timed) ts scheduled.readings)

  -- On a socket without a deadline, under an accepted limit, and where the operation does not
  -- report would_block, write_some returns once its operation completes, with the bytes of that one
  -- attempt and the operation's code, or timed_out where the deadline fired before; the socket is
  -- closed exactly if it fired, no deadline is left on the timer, and the settings stay.
  pub write_some-Transferred :
      Transferred s fires error n (write_some from_now same now limit schedule s)
  unfolding write_some
  write_some-Transferred =
      rw
        (
          start_operation-accepted from_now now limit s accepted,
          run_until_set-completes from_now never_due deadline_actor (λ _ m. m) same ts end_time
              error n es (started from_now now limit s) start-IsWaiting scheduled.readings final,
        )
        (tail (λ _ m. m) (λ m. refl))

  pub read_some-Transferred :
      Transferred s fires error n (read_some from_now same now limit schedule s)
  unfolding write_some read_some
  read_some-Transferred = write_some-Transferred

  -- On a socket without a deadline, under an accepted limit, and where the operation reports
  -- neither would_block nor try_again, send returns once its operation completes, with the bytes of
  -- the attempt and the operation's code, or timed_out where the deadline fired before; the socket
  -- is closed exactly if it fired, no deadline is left on the timer, and the settings stay.
  pub send-Transferred :
      is_try_again same error ≡ false
      → Transferred s fires error n (send from_now same now limit schedule s)
  unfolding send
  send-Transferred last =
      rw
        (
          start_operation-accepted from_now now limit s accepted,
          run_retrying-completes from_now never_due deadline_actor (λ sum m. sum + m) same ts
              end_time error n es (started from_now now limit s) start-IsWaiting scheduled.readings
              final last,
        )
        (tail (λ sum m. sum + m) (λ m. omega arith))

  pub receive-Transferred :
      is_try_again same error ≡ false
      → Transferred s fires error n (receive from_now same now limit schedule s)
  unfolding send receive
  receive-Transferred last = send-Transferred last

module _ (from_now : ℤ → ℤ → ℤ) (same : Bool) (now : ℤ) (limit : Limit) (events : List (Event ℕ))
    (s : BaseSocket) (refused : is_accepted limit ≡ false) where
  start_operation-refused : start_operation from_now now limit s ≡ thrown timed_out
  unfolding start_operation
  start_operation-refused = ground (arith, scope_expire-refused from_now now limit s.timed refused)

  -- A limit that is refused, a duration below the resolution, makes send, receive, write_some and
  -- read_some throw timed_out, those overloads included that have an error code to set.
  pub refused-throws :
      (send from_now same now limit events s ≡ throws timed_out)
      × (receive from_now same now limit events s ≡ throws timed_out)
      × (write_some from_now same now limit events s ≡ throws timed_out)
      × (read_some from_now same now limit events s ≡ throws timed_out)
  unfolding send receive write_some read_some
  refused-throws = (
    rw start_operation-refused,
    rw start_operation-refused,
    rw start_operation-refused,
    rw start_operation-refused,
  )
