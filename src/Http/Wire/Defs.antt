-- ===== src/Http/Wire/Defs.antt =====
-- The calls of write_some and read_some in impl/http_socket.ipp, where the stream is the socket of
-- stream/stream_socket.hpp.
use stream_client.Common.{ℕ, suc, ◌≤◌, ◌<◌, ◌≡◌, Bool, false, List, [], ◌∷◌, ◌++◌, map, ℤ}
use stream_client.ErrorCode.{ErrorCode, would_block, failed}
use stream_client.Clock.{IsNow}
use stream_client.Timed.Defs.{until, IsDisarmed}
use stream_client.Timed.Operation.{
  timer, completes, Outcome, returns, throws, blocks, is_would_block,
}
use stream_client.Timed.Deadline.{AllNow}
use stream_client.Socket.Defs.{BaseSocket}
use stream_client.Socket.Stream.{Transfer, write_some, read_some}

-- What surrounds one operation: the clock at its start, the timer's readings before it completes,
-- when, with what, and how many bytes are written, or read into a buffer of some size.
pub record Exchange : Type 0 where
  pub starts : ℤ
  pub readings : List ℤ
  pub ends : ℤ
  pub error : ErrorCode
  pub written : ℕ
  pub read : ℕ → ℕ

-- The socket below, and the number of operations that it has carried out.
pub record Wire : Type 0 where
  pub socket : BaseSocket
  pub turn : ℕ

module _ (from_now : ℤ → ℤ → ℤ) (same : Bool) (deadline : ℤ) (plan : ℕ → Exchange) where
  -- Under a deadline an operation that completes for good neither throws nor blocks.
  unfoldable pub exchanged : Wire → Outcome Transfer → Wire × ℕ × ErrorCode
  exchanged w (returns (s, n, ec)) = (record { socket = s; turn = suc w.turn }, n, ec)
  exchanged w (throws ec) = (w, 0, ec)
  exchanged w blocks = (w, 0, would_block)

  -- `stream_.write_some(buffers, ec, deadline)`
  unfoldable pub wire_write : Wire → Wire × ℕ × ErrorCode
  unfolding exchanged
  wire_write w =
      let x = plan w.turn in
      exchanged w (
        write_some from_now same x.starts (until deadline)
          (map timer x.readings ++ completes x.ends x.error x.written ∷ []) w.socket)

  -- `stream_.read_some(*out_buff, ec, deadline)`
  unfoldable pub wire_read : ℕ → Wire → Wire × ℕ × ErrorCode
  unfolding exchanged
  wire_read size w =
      let x = plan w.turn in
      exchanged w (
        read_some from_now same x.starts (until deadline)
          (map timer x.readings ++ completes x.ends x.error (x.read size) ∷ []) w.socket)

  -- An operation that completes for good, with some bytes or an error.
  pub record IsExchange (x : Exchange) : Type 0 where
    pub times : AllNow x.readings
    pub end_clock : IsNow x.ends
    pub final : is_would_block same x.error ≡ false
    pub writes : failed x.error ≡ false → 0 < x.written
    pub reads :
        (size : ℕ) → 0 < size → failed x.error ≡ false → (0 < x.read size) × (x.read size ≤ size)

-- A socket between two operations, with the settings of `s`.
pub record IsBetween (s : BaseSocket) (is_open : Bool) (w : Wire) : Type 0 where
  pub open_mode : w.socket.is_open ≡ is_open
  pub disarmed : IsDisarmed w.socket.timed
  pub still_posted : 0 < w.socket.timed.posted
  pub same_timeout : w.socket.io_operation_timeout ≡ s.io_operation_timeout
  pub same_mode : w.socket.io_timeouted ≡ s.io_timeouted
