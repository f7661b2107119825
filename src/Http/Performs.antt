-- ===== src/Http/Performs.antt =====
-- perform of include/stream-client/stream/http_socket.hpp and impl/http_socket.ipp ends.
use stream_client.Common.{
  ℕ, ◌+◌, ◌<◌, ◌≡◌, sym, ◌∙◌, inl, inr, Option, none, some, arith, Bool-cases,
}
use stream_client.ErrorCode.{ErrorCode, failed}
use stream_client.Http.Defs.{Serializer, Parser, Buffer, perform}
use stream_client.Http.Requests.{SerializerLaws, WritesSome, send_request-ends}
use stream_client.Http.Responses.{IsResponse, perform-Responds}
use stream_client.Http.Receives.{ReceiveLaws, ReadsSome, recv_response-ends}

module _ {R P B T : Type 0} (serializer : Serializer R) (sending : SerializerLaws serializer)
    (parser : Parser P B) (buffer : Buffer B) (laws : ReceiveLaws parser buffer)
    (write_some : T → T × ℕ × ErrorCode) (read_some : ℕ → T → T × ℕ × ErrorCode)
    (InUse : T → Type 0) (writes : WritesSome InUse write_some)
    (reads : ReadsSome InUse read_some) where
  performs :
      (fuel : ℕ) (request : R) (fresh : P) (b : B) (t : T) (ec : ErrorCode)
      → laws.parsed fresh ≡ 0
      → InUse t
      → sending.left request < fuel
      → laws.limit + laws.waiting + 1 < fuel
      → (x : B × T × Option P × ErrorCode) × (perform serializer parser buffer write_some read_some
            fuel request fresh b t ec
          ≡ some x)
  unfolding perform
  performs fuel request fresh b t ec new used enough enough_too =
      let (sent, e, end_) =
        send_request-ends serializer sending write_some InUse writes fuel request t ec used
          enough in
      elim (Bool-cases (failed sent.2)) [
        | inl bad ↦ ((b, sent.1, none, sent.2), rw (e, bad, perform))
        | inr fine ↦
            let still : InUse sent.1 = elim end_ [
              | inl bad ↦ absurd (ground (arith, sym fine ∙ bad))
              | inr (done, used) ↦ used
            ] in
            let (x, f) =
              recv_response-ends parser buffer laws read_some InUse reads fuel fresh b sent.1 sent.2
                new still enough_too in
            (x, rw (e, fine, perform) f)
      ]

  -- If the serializer, the buffer and the parser behave as documented, and on a stream in use every
  -- write without an error takes some bytes, every such read gives some that fit, and both leave
  -- the stream in use, then perform on a stream in use ends, within as many turns of its loops as
  -- the request has bytes and the parser's limits allow: with a response whose parser is done and
  -- no error, or with none and an error.
  pub perform-ends :
      (fuel : ℕ) (request : R) (fresh : P) (b : B) (t : T) (ec : ErrorCode)
      → laws.parsed fresh ≡ 0
      → InUse t
      → sending.left request < fuel
      → laws.limit + laws.waiting + 1 < fuel
      → (x : B × T × Option P × ErrorCode) × (perform serializer parser buffer write_some read_some
            fuel request fresh b t ec
          ≡ some x)
        × IsResponse parser buffer read_some x.2 x.3
  perform-ends fuel request fresh b t ec new used enough enough_too =
      let (x, e) = performs fuel request fresh b t ec new used enough enough_too in
      (
        x,
        e,
        rw e at (
            perform-Responds serializer parser buffer write_some read_some fuel request fresh b t
              ec),
      )
