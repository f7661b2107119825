-- ===== src/Http/Aliases.antt =====
-- The overloads of perform of stream/http_socket.hpp that take a duration or none. Calls of the
-- stream below are known by their deadline; `io_timeout` is the stream's.
use stream_client.Common.{ℕ, Option, none, some, ◌+◌, ℤ}
use stream_client.ErrorCode.{ErrorCode, success, Throws}
use stream_client.Clock.{add_time}
use stream_client.Http.Defs.{
  k_header_limit, k_body_limit, Serializer, Parser, Buffer, perform, response_or_throw,
}

-- The constructor's argument of the buffer.
abbrev pub buffer_limit : ℕ
buffer_limit = k_body_limit + k_header_limit

module _ {R P B T : Type 0} (serializer : Serializer R) (parser : Parser P B) (buffer : Buffer B)
    (write_some : ℤ → T → T × ℕ × ErrorCode) (read_some : ℤ → ℕ → T → T × ℕ × ErrorCode)
    (now : ℤ) where
  -- perform(request, ec, timeout)
  unfoldable pub perform_within :
      ℤ → ℕ → R → (fresh : P) → B → T → ErrorCode → Option (B × T × Option P × ErrorCode)
  unfolding perform add_time
  perform_within timeout fuel request fresh b t ec =
      perform serializer parser buffer (write_some (add_time now timeout))
        (read_some (add_time now timeout)) fuel request fresh b t ec

  -- perform(request, ec)
  unfoldable pub perform_timed :
      (io_timeout : T → ℤ)
      → ℕ
      → R
      → (fresh : P) → B
      → T
      → ErrorCode
      → Option (B × T × Option P × ErrorCode)
  unfolding perform_within
  perform_timed io_timeout fuel request fresh b t ec =
      perform_within (io_timeout t) fuel request fresh b t ec

  -- perform(request)
  unfoldable pub perform_or_throw :
      (io_timeout : T → ℤ) → ℕ → R → (fresh : P) → B → T → Option (B × T × Throws P)
  unfolding perform_timed response_or_throw
  perform_or_throw io_timeout fuel request fresh b t =
      elim (perform_timed io_timeout fuel request fresh b t success) [
        | none ↦ none
        | some x ↦ some (x.0, x.1, response_or_throw x.2 x.3)
      ]
