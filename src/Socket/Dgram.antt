-- ===== src/Socket/Dgram.antt =====
-- include/stream-client/stream/dgram_socket.hpp and impl/dgram_socket.ipp.
use stream_client.Common.{ℕ, ◌+◌, ◌≡◌, Bool, false, List, ◌∷◌, ◌++◌, map, ℤ}
use stream_client.ErrorCode.{ErrorCode}
use stream_client.Timed.Defs.{Limit, NeverDue}
use stream_client.Timed.Operation.{
  Event, timer, completes, Outcome, is_would_block, is_try_again, run_retrying,
}
use stream_client.Timed.Limits.{is_accepted, expiry_under}
use stream_client.Timed.Deadline.{first_due}
use stream_client.Socket.Defs.{BaseSocket, deadline_actor, after_loop}
use stream_client.Socket.Stream.{
  Transfer, concluded, start_operation, from_start, or_thrown, send, receive,
}
use stream_client.Socket.Timeouts.{Transferred, IsScheduled, send-Transferred, receive-Transferred}
use stream_client.Common.{true}

module _ (from_now : ℤ → ℤ → ℤ) (same : Bool) where
  -- send(buffers, ec, timeout_or_deadline): one datagram an attempt.
  unfoldable pub datagram_send : ℤ → Limit → List (Event ℕ) → BaseSocket → Outcome Transfer
  unfolding after_loop from_start
  datagram_send now limit events s =
      from_start
        (λ r.
          after_loop (concluded s)
            (run_retrying from_now deadline_actor (λ sum n. sum + n) same events r))
        (start_operation from_now now limit s)

  -- receive(buffers, ec, timeout_or_deadline)
  unfoldable pub datagram_receive : ℤ → Limit → List (Event ℕ) → BaseSocket → Outcome Transfer
  unfolding after_loop from_start
  datagram_receive now limit events s =
      from_start
        (λ r.
          after_loop (concluded s)
            (run_retrying from_now deadline_actor (λ sum n. sum + n) same events r))
        (start_operation from_now now limit s)

  -- The overloads without `ec`.
  unfoldable pub datagram_send_or_throw :
      ℤ → Limit → List (Event ℕ) → BaseSocket → Outcome (BaseSocket × ℕ)
  unfolding datagram_send or_thrown
  datagram_send_or_throw now limit events s = or_thrown (datagram_send now limit events s)

  unfoldable pub datagram_receive_or_throw :
      ℤ → Limit → List (Event ℕ) → BaseSocket → Outcome (BaseSocket × ℕ)
  unfolding datagram_receive or_thrown
  datagram_receive_or_throw now limit events s = or_thrown (datagram_receive now limit events s)

module _ (from_now : ℤ → ℤ → ℤ) (never_due : NeverDue from_now) (same : Bool) (now : ℤ)
    (limit : Limit) (ts : List ℤ) (end_time : ℤ) (error : ErrorCode) (n : ℕ) (es : List (Event ℕ))
    (s : BaseSocket) where
  -- On a socket without a deadline, under an accepted limit, and where the operation reports
  -- neither would_block nor try_again, send and receive of the datagram socket return once their
  -- operation completes, with its bytes and code, or timed_out where the deadline fired before; the
  -- socket is closed exactly if it fired, no deadline is left on the timer, and the settings stay.
  pub datagram-Transferred :
      IsScheduled s ts end_time
      → is_accepted limit ≡ true
      → is_would_block same error ≡ false
      → is_try_again same error ≡ false
      → let fires = first_due (expiry_under from_now now limit s.timed) ts in
        let schedule = map timer ts ++ completes end_time error n ∷ es in
        Transferred s fires error n (datagram_send from_now same now limit schedule s)
        × Transferred s fires error n (datagram_receive from_now same now limit schedule s)
  unfolding datagram_send datagram_receive send receive
  datagram-Transferred scheduled accepted final last = (
    send-Transferred from_now never_due same now limit ts end_time error n es s scheduled accepted
        final last,
    receive-Transferred from_now never_due same now limit ts end_time error n es s scheduled
        accepted final last,
  )
