-- ===== src/Http/Secure/Defs.antt =====
-- The calls of write_some and read_some in impl/http_socket.ipp, where the stream is the socket of
-- stream/ssl_stream_socket.hpp.
use stream_client.Common.{ℕ, suc, ◌≤◌, ◌<◌, ◌≡◌, Bool, false, ℤ}
use stream_client.ErrorCode.{ErrorCode, Throws, value, thrown, failed}
use stream_client.Clock.{IsNow}
use stream_client.Timed.Defs.{until}
use stream_client.Socket.Defs.{BaseSocket}
use stream_client.Ssl.Defs.{write_some, read_some}
use stream_client.Ssl.Engine.{Drives}

-- What surrounds one operation: the clock at its start and at its end, and the call of the TLS
-- stream that writes, or that reads into a buffer of some size.
pub record Exchange : Type 0 where
  pub starts : ℤ
  pub ends : ℤ
  pub write : BaseSocket → BaseSocket × ℕ × ErrorCode
  pub read : ℕ → BaseSocket → BaseSocket × ℕ × ErrorCode

-- The socket below the TLS stream, and the number of operations that have been carried out.
pub record Wire : Type 0 where
  pub socket : BaseSocket
  pub turn : ℕ

module _ (from_now : ℤ → ℤ → ℤ) (same : Bool) (deadline : ℤ) (plan : ℕ → Exchange) where
  -- Under a deadline a TLS operation does not throw.
  unfoldable pub passed : ℕ → BaseSocket × Throws (ℕ × ErrorCode) → Wire × ℕ × ErrorCode
  passed turn (s, value (n, ec)) = (record { socket = s; turn = suc turn }, n, ec)
  passed turn (s, thrown ec) = (record { socket = s; turn = suc turn }, 0, ec)

  -- `stream_.write_some(buffers, ec, deadline)`
  unfoldable pub secure_write : Wire → Wire × ℕ × ErrorCode
  unfolding passed
  secure_write w =
      let x = plan w.turn in
      passed w.turn (write_some from_now x.starts (until deadline) x.write x.ends w.socket)

  -- `stream_.read_some(*out_buff, ec, deadline)`
  unfoldable pub secure_read : ℕ → Wire → Wire × ℕ × ErrorCode
  unfolding passed
  secure_read size w =
      let x = plan w.turn in
      passed w.turn (read_some from_now x.starts (until deadline) (x.read size) x.ends w.socket)

  -- The TLS stream drives the socket below.
  abbrev pub IsLayer : (BaseSocket → BaseSocket × ℕ × ErrorCode) → Type 0
  IsLayer layer =
      (t : BaseSocket)
      → 0 < t.timed.posted
      → t.io_timeouted ≡ false
      → Drives from_now same t (layer t).0 (layer t).2

  -- Calls that drive the socket below, and transfer some bytes or report an error.
  pub record IsExchange (x : Exchange) : Type 0 where
    pub end_clock : IsNow x.ends
    pub write_drives : IsLayer x.write
    pub read_drives : (size : ℕ) → IsLayer (x.read size)
    pub writes :
        (t : BaseSocket)
        → 0 < t.timed.posted
        → t.io_timeouted ≡ false
        → failed (x.write t).2 ≡ false
        → 0 < (x.write t).1
    pub reads :
        (size : ℕ) (t : BaseSocket)
        → 0 < t.timed.posted
        → t.io_timeouted ≡ false
        → 0 < size
        → failed (x.read size t).2 ≡ false
        → (0 < (x.read size t).1) × ((x.read size t).1 ≤ size)
