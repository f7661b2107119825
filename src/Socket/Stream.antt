-- ===== src/Socket/Stream.antt =====
-- include/stream-client/stream/stream_socket.hpp and impl/stream_socket.ipp.
use stream_client.Common.{ℕ, ◌+◌, Bool, true, false, not, List, if◌then◌else◌, ℤ}
use stream_client.ErrorCode.{ErrorCode, would_block, not_connected, Throws, value, thrown, failed}
use stream_client.Timed.Defs.{Limit, scope_expire}
use stream_client.Timed.Operation.{
  Event, Running, Outcome, returns, throws, blocks, run_until_set, run_retrying,
}
use stream_client.Socket.Defs.{BaseSocket, close, deadline_actor, after_loop}

abbrev pub is_not_connected : ErrorCode → Bool
is_not_connected not_connected = true
is_not_connected _ = false

-- stream_socket::close, by what shutdown() and close() of asio report.
unfoldable pub close_gracefully : ErrorCode → ErrorCode → BaseSocket → BaseSocket × ErrorCode
unfolding close
close_gracefully shut closed s = if not (is_not_connected shut) then (s, shut) else close closed s

-- What an operation gives: the socket, the bytes transferred, and `ec`.
abbrev pub Transfer : Type 0
Transfer = BaseSocket × ℕ × ErrorCode

unfoldable pub concluded : BaseSocket → Running Bool ℕ → Outcome Transfer
concluded s r = returns (record s { timed = r.timed; is_open = r.derived }, r.got, r.ec)

-- An operation started under a limit: the loop's variables, or the exception of scope_expire.
unfoldable pub start_operation :
    (from_now : ℤ → ℤ → ℤ) → ℤ → Limit → BaseSocket → Throws (Running Bool ℕ)
unfolding scope_expire
start_operation from_now now limit s =
    let expire = scope_expire from_now now limit s.timed in
    elim expire.1 [
      | thrown ec ↦ thrown ec
      | value handle ↦ value (record {
        timed = expire.0;
        derived = s.is_open;
        handle = handle;
        ec = would_block;
        got = 0;
        pending = true;
      })
    ]

unfoldable pub from_start : {A B : Type 0} → (A → Outcome B) → Throws A → Outcome B
from_start f (value a) = f a
from_start f (thrown ec) = throws ec

module _ (from_now : ℤ → ℤ → ℤ) (same : Bool) where
  -- send(buffers, ec, timeout_or_deadline): each attempt adds the bytes of async_write.
  unfoldable pub send : ℤ → Limit → List (Event ℕ) → BaseSocket → Outcome Transfer
  unfolding after_loop from_start
  send now limit events s =
      from_start
        (λ r.
          after_loop (concluded s)
            (run_retrying from_now deadline_actor (λ sum n. sum + n) same events r))
        (start_operation from_now now limit s)

  -- receive(buffers, ec, timeout_or_deadline), with async_read.
  unfoldable pub receive : ℤ → Limit → List (Event ℕ) → BaseSocket → Outcome Transfer
  unfolding after_loop from_start
  receive now limit events s =
      from_start
        (λ r.
          after_loop (concluded s)
            (run_retrying from_now deadline_actor (λ sum n. sum + n) same events r))
        (start_operation from_now now limit s)

  -- write_some(buffers, ec, timeout_or_deadline): one attempt.
  unfoldable pub write_some : ℤ → Limit → List (Event ℕ) → BaseSocket → Outcome Transfer
  unfolding after_loop from_start
  write_some now limit events s =
      from_start
        (λ r.
          after_loop (concluded s) (run_until_set from_now deadline_actor (λ _ n. n) same events r))
        (start_operation from_now now limit s)

  -- read_some(buffers, ec, timeout_or_deadline)
  unfoldable pub read_some : ℤ → Limit → List (Event ℕ) → BaseSocket → Outcome Transfer
  unfolding after_loop from_start
  read_some now limit events s =
      from_start
        (λ r.
          after_loop (concluded s) (run_until_set from_now deadline_actor (λ _ n. n) same events r))
        (start_operation from_now now limit s)

-- The overloads without `ec`: they throw what the others report.
unfoldable pub or_thrown : Outcome Transfer → Outcome (BaseSocket × ℕ)
or_thrown (returns (s, n, ec)) = if failed ec then throws ec else returns (s, n)
or_thrown (throws ec) = throws ec
or_thrown blocks = blocks
