-- ===== src/Ssl/Aliases.antt =====
-- The overloads of the TLS socket that take a timeout, or the current one
-- (stream/ssl_stream_socket.hpp). `now`: the clock when the deadline is computed.
use stream_client.Common.{ℕ, List, ℤ}
use stream_client.ErrorCode.{ErrorCode, Throws}
use stream_client.Clock.{add_time}
use stream_client.Timed.Defs.{lasting}
use stream_client.Timed.Operation.{Outcome}
use stream_client.Socket.Defs.{BaseSocket, io_timeout}
use stream_client.Ssl.Defs.{Call, send, receive, write_some, read_some}

module _ (from_now : ℤ → ℤ → ℤ) (now : ℤ) where
  -- send(buffers, ec, timeout)
  unfoldable pub send_within :
      ℕ → ℤ → List Call → ErrorCode → BaseSocket → Outcome (BaseSocket × ℕ × ErrorCode)
  unfolding send add_time
  send_within buffer_size timeout calls ec s =
      send from_now buffer_size (add_time now timeout) calls ec s

  -- send(buffers, ec)
  unfoldable pub send_timed :
      ℕ → List Call → ErrorCode → BaseSocket → Outcome (BaseSocket × ℕ × ErrorCode)
  unfolding send add_time io_timeout
  send_timed buffer_size calls ec s =
      send from_now buffer_size (add_time now (io_timeout s)) calls ec s

  -- receive(buffers, ec, timeout)
  unfoldable pub receive_within :
      ℕ → ℤ → List Call → ErrorCode → BaseSocket → Outcome (BaseSocket × ℕ × ErrorCode)
  unfolding receive add_time
  receive_within buffer_size timeout calls ec s =
      receive from_now buffer_size (add_time now timeout) calls ec s

  -- receive(buffers, ec)
  unfoldable pub receive_timed :
      ℕ → List Call → ErrorCode → BaseSocket → Outcome (BaseSocket × ℕ × ErrorCode)
  unfolding receive add_time io_timeout
  receive_timed buffer_size calls ec s =
      receive from_now buffer_size (add_time now (io_timeout s)) calls ec s

  -- write_some(buffers, ec)
  unfoldable pub write_some_timed :
      (BaseSocket → BaseSocket × ℕ × ErrorCode)
      → ℤ
      → BaseSocket
      → BaseSocket × Throws (ℕ × ErrorCode)
  unfolding write_some io_timeout
  write_some_timed layer end_time s =
      write_some from_now now (lasting (io_timeout s)) layer end_time s

  -- read_some(buffers, ec)
  unfoldable pub read_some_timed :
      (BaseSocket → BaseSocket × ℕ × ErrorCode)
      → ℤ
      → BaseSocket
      → BaseSocket × Throws (ℕ × ErrorCode)
  unfolding read_some io_timeout
  read_some_timed layer end_time s =
      read_some from_now now (lasting (io_timeout s)) layer end_time s
