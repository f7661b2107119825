-- ===== src/Socket/Async.antt =====
-- The asynchronous operations of stream/impl/stream_socket.ipp and stream/impl/dgram_socket.ipp: what
-- starting one does to the socket, and the expiration that its handler keeps; and the remaining
-- small methods of stream/base_socket.hpp.
use stream_client.Common.{ℕ, ◌≡◌, Bool, true, false, List, if◌then◌else◌, arith, ℤ}
use stream_client.ErrorCode.{ErrorCode, would_block, Throws, value, thrown}
use stream_client.Timed.Defs.{Limit, Expiration, scope_expire}
use stream_client.Timed.Operation.{Event, Running, Outcome}
use stream_client.Socket.Defs.{BaseSocket, close, base_socket}
use stream_client.Socket.Stream.{start_operation}

-- base_socket::config, without the endpoint.
pub record Config : Type 0 where
  pub connect_timeout : ℤ
  pub operation_timeout : ℤ

-- base_socket(cfg)
unfoldable pub base_socket_config :
    (from_now : ℤ → ℤ → ℤ) (same : Bool) (now : ℤ)
    → Config
    → (opened : Bool) → List (Event (Unit {0}))
    → (options : List ErrorCode) (end_time : ℤ) → Outcome BaseSocket
unfolding base_socket
base_socket_config from_now same now cfg opened events options end_time =
    base_socket from_now same now cfg.connect_timeout cfg.operation_timeout opened events options
      end_time

-- close(ec), by what close() of asio reports.
unfoldable pub close_into : ErrorCode → BaseSocket → BaseSocket × ErrorCode
unfolding close
close_into reported s = close reported s

-- The destructor ignores the error.
unfoldable pub destroy_socket : ErrorCode → BaseSocket → BaseSocket
unfolding close_into
destroy_socket reported s = (close_into reported s).0

-- What starting an operation gives: the socket, and the expiration in the handler.
abbrev pub Begun : Type 0
Begun = Throws (BaseSocket × Expiration)

module _ (from_now : ℤ → ℤ → ℤ) (now : ℤ) (limit : Limit) where
  -- `this->scope_expire(timeout_or_deadline)`
  unfoldable pub expiring : BaseSocket → Begun
  unfolding scope_expire
  expiring s =
      let expire = scope_expire from_now now limit s.timed in
      elim expire.1 [
        | thrown ec ↦ thrown ec
        | value handle ↦ value (record s { timed = expire.0 }, handle)
      ]

  -- async_send(buffers, timeout_or_deadline, handler, setup_expiration)
  unfoldable pub async_send : Bool → BaseSocket → Begun
  unfolding expiring
  async_send setup_expiration s =
      if setup_expiration then expiring s else value (s, record { armed = false })

  -- async_receive(buffers, timeout_or_deadline, handler, setup_expiration)
  unfoldable pub async_receive : Bool → BaseSocket → Begun
  unfolding expiring
  async_receive setup_expiration s =
      if setup_expiration then expiring s else value (s, record { armed = false })

  -- async_write_some(buffers, timeout_or_deadline, handler), and async_read_some
  unfoldable pub async_write_some : BaseSocket → Begun
  unfolding expiring
  async_write_some s = expiring s

  unfoldable pub async_read_some : BaseSocket → Begun
  unfolding expiring
  async_read_some s = expiring s

  -- The datagram socket's async_send and async_receive.
  unfoldable pub datagram_async_send : Bool → BaseSocket → Begun
  unfolding expiring
  datagram_async_send setup_expiration s =
      if setup_expiration then expiring s else value (s, record { armed = false })

  unfoldable pub datagram_async_receive : Bool → BaseSocket → Begun
  unfolding expiring
  datagram_async_receive setup_expiration s =
      if setup_expiration then expiring s else value (s, record { armed = false })

  -- The variables of a loop that waits for such an operation.
  abbrev awaited : Begun → Throws (Running Bool ℕ)
  awaited (thrown ec) = thrown ec
  awaited (value (s, handle)) = value (record {
    timed = s.timed;
    derived = s.is_open;
    handle = handle;
    ec = would_block;
    got = 0;
    pending = true;
  })

  awaited-expiring : (s : BaseSocket) → start_operation from_now now limit s ≡ awaited (expiring s)
  unfolding start_operation expiring
  awaited-expiring s = ground arith

  -- The synchronous operations start by the asynchronous ones, with an expiration.
  pub start_operation-async :
      (s : BaseSocket)
      → (start_operation from_now now limit s ≡ awaited (async_send true s))
        × (start_operation from_now now limit s ≡ awaited (async_receive true s))
        × (start_operation from_now now limit s ≡ awaited (async_write_some s))
        × (start_operation from_now now limit s ≡ awaited (async_read_some s))
        × (start_operation from_now now limit s ≡ awaited (datagram_async_send true s))
        × (start_operation from_now now limit s ≡ awaited (datagram_async_receive true s))
  unfolding async_send async_receive async_write_some async_read_some datagram_async_send
      datagram_async_receive
  start_operation-async s = let e = awaited-expiring s in (e, e, e, e, e, e)
