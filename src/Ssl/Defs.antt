-- ===== src/Ssl/Defs.antt =====
-- include/stream-client/stream/ssl_stream_socket.hpp and impl/ssl_stream_socket.ipp.
-- The TLS stream of asio is a parameter: a call of it changes the socket below, by that socket's own
-- operations, and reports a result `A` with an error code.
use stream_client.Common.{
  ℕ, ◌+◌, ◌%◌, ◌^◌, Bool, true, false, Option, none, some, List, [], ◌∷◌, ◌==◌, if◌then◌else◌, ℤ,
}
use stream_client.ErrorCode.{ErrorCode, success, stream_truncated, Throws, value, thrown, failed}
use stream_client.Clock.{add_time}
use stream_client.Timed.Defs.{Limit, until, scope_expire, release}
use stream_client.Timed.Operation.{Outcome, returns, throws, blocks}
use stream_client.Socket.Defs.{BaseSocket, set_io_timeout_enabled, close}

-- What handshake, write_some and read_some share: the timeouts of the socket below are switched off,
-- the whole call has the limit, and the old mode comes back. `layer`: the call of the TLS stream;
-- `end_time`: the clock when the expiration ends.
unfoldable pub limited :
    {A : Type 0}
    → (from_now : ℤ → ℤ → ℤ) → ℤ
    → Limit
    → (layer : BaseSocket → BaseSocket × A × ErrorCode) → (end_time : ℤ) → BaseSocket
    → BaseSocket × Throws (A × ErrorCode)
unfolding scope_expire release set_io_timeout_enabled
limited from_now now limit layer end_time s =
    let off = set_io_timeout_enabled false s in
    let expire = scope_expire from_now now limit off.0.timed in
    elim expire.1 [
      | thrown ec ↦ (record (off.0) { timed = expire.0 }, thrown ec)
      | value handle ↦
          let done = layer (record (off.0) { timed = expire.0 }) in
          let on = (set_io_timeout_enabled off.1 done.0).0 in
          (record on { timed = release from_now end_time handle on.timed }, value (done.1, done.2))
    ]

-- handshake(ec, timeout_or_deadline), which has no result but `ec`
unfoldable pub handshake :
    (from_now : ℤ → ℤ → ℤ)
    → ℤ
    → Limit
    → (layer : BaseSocket → BaseSocket × Unit {0} × ErrorCode) → (end_time : ℤ) → BaseSocket
    → BaseSocket × Throws (Unit {0} × ErrorCode)
unfolding limited
handshake from_now now limit layer end_time s = limited from_now now limit layer end_time s

-- write_some(buffers, ec, timeout_or_deadline)
unfoldable pub write_some :
    (from_now : ℤ → ℤ → ℤ)
    → ℤ
    → Limit
    → (layer : BaseSocket → BaseSocket × ℕ × ErrorCode) → (end_time : ℤ) → BaseSocket
    → BaseSocket × Throws (ℕ × ErrorCode)
unfolding limited
write_some from_now now limit layer end_time s = limited from_now now limit layer end_time s

-- read_some(buffers, ec, timeout_or_deadline)
unfoldable pub read_some :
    (from_now : ℤ → ℤ → ℤ)
    → ℤ
    → Limit
    → (layer : BaseSocket → BaseSocket × ℕ × ErrorCode) → (end_time : ℤ) → BaseSocket
    → BaseSocket × Throws (ℕ × ErrorCode)
unfolding limited
read_some from_now now limit layer end_time s = limited from_now now limit layer end_time s

-- The overloads that throw what the others report.
unfoldable pub or_thrown : {A : Type 0} → Throws (A × ErrorCode) → Throws A
or_thrown (value (a, ec)) = if failed ec then thrown ec else value a
or_thrown (thrown ec) = thrown ec

-- The values of size_t.
abbrev pub size_mod : ℕ
size_mod = 2 ^ 64

-- What surrounds one call of write_some or read_some in the loops of send and receive.
pub record Call : Type 0 where
  pub now : ℤ
  pub layer : BaseSocket → BaseSocket × ℕ × ErrorCode
  pub end_time : ℤ

-- The loop of send and of receive, over write_some or read_some, with `transfered_bytes`, a size_t, and
-- `ec`; it has not ended when the calls are over.
unfoldable pub transfer_loop :
    (transfer_some : Call → BaseSocket → BaseSocket × Throws (ℕ × ErrorCode))
    → (buffer_size : ℕ) → List Call
    → ℕ
    → ErrorCode
    → BaseSocket
    → Outcome (BaseSocket × ℕ × ErrorCode)
transfer_loop transfer_some buffer_size [] transfered_bytes ec s =
    if transfered_bytes == buffer_size then returns (s, transfered_bytes, ec) else blocks
transfer_loop transfer_some buffer_size (c ∷ cs) transfered_bytes ec s =
    let some_ = transfer_some c s in
    if transfered_bytes == buffer_size then returns (s, transfered_bytes, ec) else elim some_.1 [
      | thrown code ↦ throws code
      | value r ↦
          let sum = (transfered_bytes + r.0) % size_mod in
          elim (failed r.1) [
            | true ↦ returns (some_.0, sum, r.1)
            | false ↦ transfer_loop transfer_some buffer_size cs sum r.1 some_.0
          ]
    ]

-- send(buffers, ec, deadline)
unfoldable pub send :
    (from_now : ℤ → ℤ → ℤ)
    → (buffer_size : ℕ) → (deadline : ℤ) → List Call
    → ErrorCode
    → BaseSocket
    → Outcome (BaseSocket × ℕ × ErrorCode)
unfolding transfer_loop write_some
send from_now buffer_size deadline calls ec s =
    transfer_loop (λ c. write_some from_now c.now (until deadline) c.layer c.end_time) buffer_size
      calls 0 ec s

-- receive(buffers, ec, deadline)
unfoldable pub receive :
    (from_now : ℤ → ℤ → ℤ)
    → (buffer_size : ℕ) → (deadline : ℤ) → List Call
    → ErrorCode
    → BaseSocket
    → Outcome (BaseSocket × ℕ × ErrorCode)
unfolding transfer_loop read_some
receive from_now buffer_size deadline calls ec s =
    transfer_loop (λ c. read_some from_now c.now (until deadline) c.layer c.end_time) buffer_size
      calls 0 ec s

-- What close() makes of the error of shutdown(): a truncated stream is none.
unfoldable pub shutdown_error : ErrorCode → ErrorCode
shutdown_error stream_truncated = success
shutdown_error ec = ec

-- stream_socket::close of ssl, by what shutdown() of the TLS stream and close() report.
unfoldable pub close_tls : ErrorCode → ErrorCode → BaseSocket → BaseSocket × ErrorCode
unfolding close shutdown_error
close_tls shut closed s =
    if failed (shutdown_error shut) then (s, shutdown_error shut) else close closed s

-- The constructor, at time `now`. `connect`: that of the socket below; `host_name`: the error of
-- SSL_set_tlsext_host_name, if any; `shake`: the handshake of the TLS stream, at `started`.
unfoldable pub stream_socket :
    (from_now : ℤ → ℤ → ℤ)
    → (now connect_timeout : ℤ) → (connect : Throws BaseSocket) → (host_name : Option ErrorCode)
    → (rfc2818_handshake : Bool) → (started : ℤ)
    → (shake : BaseSocket → BaseSocket × Unit {0} × ErrorCode) → (end_time : ℤ) → Throws BaseSocket
unfolding handshake or_thrown
stream_socket from_now now connect_timeout (thrown ec) host_name rfc2818_handshake started shake
      end_time =
    thrown ec
stream_socket from_now now connect_timeout (value s) (some ec) rfc2818_handshake started shake
      end_time =
    thrown ec
stream_socket from_now now connect_timeout (value s) none rfc2818_handshake started shake end_time =
    let shaken =
      handshake from_now started (until (add_time now connect_timeout)) shake end_time s in
    if rfc2818_handshake
    then elim (or_thrown shaken.1) [ value u ↦ value (shaken.0) | thrown ec ↦ thrown ec ]
    else value s
