-- ===== src/Ssl/Layers.antt =====
-- What stream/ssl_stream_socket.hpp passes on to the socket below, and the overloads
-- that throw, or take fewer arguments. The TLS socket is known by that socket.
use stream_client.Common.{ℕ, Bool, List, ℤ}
use stream_client.ErrorCode.{ErrorCode, success, Throws}
use stream_client.Timed.Operation.{Outcome}
use stream_client.Socket.Stream
use stream_client.Timed.Defs.{Limit, lasting, Expiration, scope_expire}
use stream_client.Socket.Defs.{
  BaseSocket, io_timeout, set_io_timeout, io_timeout_enabled, set_io_timeout_enabled,
}
use stream_client.Ssl.Defs.{
  Call, handshake, close_tls, or_thrown, send, receive, write_some, read_some,
}

unfoldable pub connection_timeout : BaseSocket → ℤ
connection_timeout s = s.connection_timeout

unfoldable pub tls_io_timeout : BaseSocket → ℤ
unfolding io_timeout
tls_io_timeout s = io_timeout s

unfoldable pub set_tls_io_timeout : ℤ → BaseSocket → BaseSocket × ℤ
unfolding set_io_timeout
set_tls_io_timeout new_io_timeout s = set_io_timeout new_io_timeout s

unfoldable pub tls_io_timeout_enabled : BaseSocket → Bool
unfolding io_timeout_enabled
tls_io_timeout_enabled s = io_timeout_enabled s

unfoldable pub set_tls_io_timeout_enabled : Bool → BaseSocket → BaseSocket × Bool
unfolding set_io_timeout_enabled
set_tls_io_timeout_enabled new_mode s = set_io_timeout_enabled new_mode s

unfoldable pub tls_is_open : BaseSocket → Bool
tls_is_open s = s.is_open

unfoldable pub tls_scope_expire :
    (from_now : ℤ → ℤ → ℤ) → ℤ → Limit → BaseSocket → BaseSocket × Throws Expiration
unfolding scope_expire
tls_scope_expire from_now now limit s =
    let expire = scope_expire from_now now limit s.timed in
    (record s { timed = expire.0 }, expire.1)

-- handshake(timeout_or_deadline)
unfoldable pub handshake_or_throw :
    (from_now : ℤ → ℤ → ℤ)
    → ℤ
    → Limit
    → (layer : BaseSocket → BaseSocket × Unit {0} × ErrorCode) → (end_time : ℤ) → BaseSocket
    → BaseSocket × Throws (Unit {0})
unfolding handshake or_thrown
handshake_or_throw from_now now limit layer end_time s =
    let r = handshake from_now now limit layer end_time s in (r.0, or_thrown r.1)

-- handshake()
unfoldable pub handshake_default :
    (from_now : ℤ → ℤ → ℤ)
    → ℤ
    → (layer : BaseSocket → BaseSocket × Unit {0} × ErrorCode) → (end_time : ℤ) → BaseSocket
    → BaseSocket × Throws (Unit {0})
unfolding handshake_or_throw connection_timeout
handshake_default from_now now layer end_time s =
    handshake_or_throw from_now now (lasting (connection_timeout s)) layer end_time s

-- close(ec): what `ec` was is lost.
unfoldable pub close_tls_into :
    ErrorCode → ErrorCode → ErrorCode → BaseSocket → BaseSocket × ErrorCode
unfolding close_tls
close_tls_into shut closed ec s = close_tls shut closed s

-- send(buffers, deadline), and so on: they throw what the others report.
unfoldable pub tls_send_or_throw :
    (from_now : ℤ → ℤ → ℤ) → ℕ → (deadline : ℤ) → List Call → BaseSocket → Outcome (BaseSocket × ℕ)
unfolding send stream_client.Socket.Stream.or_thrown
tls_send_or_throw from_now buffer_size deadline calls s =
    Stream.or_thrown (send from_now buffer_size deadline calls success s)

unfoldable pub tls_receive_or_throw :
    (from_now : ℤ → ℤ → ℤ) → ℕ → (deadline : ℤ) → List Call → BaseSocket → Outcome (BaseSocket × ℕ)
unfolding receive stream_client.Socket.Stream.or_thrown
tls_receive_or_throw from_now buffer_size deadline calls s =
    Stream.or_thrown (receive from_now buffer_size deadline calls success s)

unfoldable pub tls_write_some_or_throw :
    (from_now : ℤ → ℤ → ℤ)
    → ℤ
    → Limit
    → (layer : BaseSocket → BaseSocket × ℕ × ErrorCode) → (end_time : ℤ) → BaseSocket
    → BaseSocket × Throws ℕ
unfolding write_some or_thrown
tls_write_some_or_throw from_now now limit layer end_time s =
    let r = write_some from_now now limit layer end_time s in (r.0, or_thrown r.1)

unfoldable pub tls_read_some_or_throw :
    (from_now : ℤ → ℤ → ℤ)
    → ℤ
    → Limit
    → (layer : BaseSocket → BaseSocket × ℕ × ErrorCode) → (end_time : ℤ) → BaseSocket
    → BaseSocket × Throws ℕ
unfolding read_some or_thrown
tls_read_some_or_throw from_now now limit layer end_time s =
    let r = read_some from_now now limit layer end_time s in (r.0, or_thrown r.1)
