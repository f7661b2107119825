-- ===== src/Socket/Aliases.antt =====
-- The overloads of stream_socket and datagram_socket that throw, and those that take the current I/O
-- timeout (stream/stream_socket.hpp, stream/dgram_socket.hpp).
use stream_client.Common.{ℕ, Bool, List, ℤ}
use stream_client.Timed.Defs.{Limit, lasting}
use stream_client.Timed.Operation.{Event, Outcome}
use stream_client.Socket.Defs.{BaseSocket, io_timeout}
use stream_client.Socket.Stream.{Transfer, send, receive, write_some, read_some, or_thrown}
use stream_client.Socket.Dgram.{datagram_send, datagram_receive}

module _ (from_now : ℤ → ℤ → ℤ) (same : Bool) (now : ℤ) where
  unfoldable pub send_or_throw : Limit → List (Event ℕ) → BaseSocket → Outcome (BaseSocket × ℕ)
  unfolding send or_thrown
  send_or_throw limit events s = or_thrown (send from_now same now limit events s)

  unfoldable pub receive_or_throw : Limit → List (Event ℕ) → BaseSocket → Outcome (BaseSocket × ℕ)
  unfolding receive or_thrown
  receive_or_throw limit events s = or_thrown (receive from_now same now limit events s)

  unfoldable pub write_some_or_throw :
      Limit → List (Event ℕ) → BaseSocket → Outcome (BaseSocket × ℕ)
  unfolding write_some or_thrown
  write_some_or_throw limit events s = or_thrown (write_some from_now same now limit events s)

  unfoldable pub read_some_or_throw : Limit → List (Event ℕ) → BaseSocket → Outcome (BaseSocket × ℕ)
  unfolding read_some or_thrown
  read_some_or_throw limit events s = or_thrown (read_some from_now same now limit events s)

  -- send(buffers, ec), and so on: the limit is io_timeout().
  unfoldable pub send_timed : List (Event ℕ) → BaseSocket → Outcome Transfer
  unfolding send io_timeout
  send_timed events s = send from_now same now (lasting (io_timeout s)) events s

  unfoldable pub receive_timed : List (Event ℕ) → BaseSocket → Outcome Transfer
  unfolding receive io_timeout
  receive_timed events s = receive from_now same now (lasting (io_timeout s)) events s

  unfoldable pub write_some_timed : List (Event ℕ) → BaseSocket → Outcome Transfer
  unfolding write_some io_timeout
  write_some_timed events s = write_some from_now same now (lasting (io_timeout s)) events s

  unfoldable pub read_some_timed : List (Event ℕ) → BaseSocket → Outcome Transfer
  unfolding read_some io_timeout
  read_some_timed events s = read_some from_now same now (lasting (io_timeout s)) events s

  unfoldable pub datagram_send_timed : List (Event ℕ) → BaseSocket → Outcome Transfer
  unfolding datagram_send io_timeout
  datagram_send_timed events s = datagram_send from_now same now (lasting (io_timeout s)) events s

  unfoldable pub datagram_receive_timed : List (Event ℕ) → BaseSocket → Outcome Transfer
  unfolding datagram_receive io_timeout
  datagram_receive_timed events s =
      datagram_receive from_now same now (lasting (io_timeout s)) events s
