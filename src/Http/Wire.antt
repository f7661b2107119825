-- ===== src/Http/Wire.antt =====
-- The HTTP socket (include/stream-client/stream/http_socket.hpp, impl/http_socket.ipp) over the
-- stream socket of stream/stream_socket.hpp, as http_client is.
pub mod Defs
use stream_client.Common.{
  ℕ, suc, ◌+◌, ◌≤◌, ◌<◌, ◌≡◌, refl, ◌∙◌, ◌⊎◌, inl, inr, Bool, true, false, Option, none, some, List,
  [], ◌∷◌, ◌++◌, map, arith, ℤ,
}
use stream_client.ErrorCode.{ErrorCode, timed_out, would_block, failed}
use stream_client.Clock.{IsNow}
use stream_client.Timed.Defs.{until, NeverDue, IsDisarmed}
use stream_client.Timed.Operation.{
  timer, completes, Outcome, returns, throws, blocks, is_would_block,
}
use stream_client.Timed.Deadline.{first_due, AllNow}
use stream_client.Socket.Defs.{BaseSocket}
use stream_client.Socket.Stream.{Transfer, write_some, read_some}
use stream_client.Socket.Timeouts.{
  Transferred, IsScheduled, write_some-Transferred, read_some-Transferred,
}
use stream_client.Http.Defs.{Serializer, Parser, Buffer, perform}
use stream_client.Http.Requests.{SerializerLaws, WritesSome}
use stream_client.Http.Responses.{IsResponse}
use stream_client.Http.Receives.{ReceiveLaws, ReadsSome}
use stream_client.Http.Performs.{perform-ends}
use stream_client.Http.Stops.{Leaves, perform-Leaves}
use stream_client.Http.Wire.Defs.{
  Exchange, Wire, exchanged, wire_write, wire_read, IsExchange, IsBetween,
}

module _ (from_now : ℤ → ℤ → ℤ) (never_due : NeverDue from_now) (same : Bool) (deadline : ℤ)
    (plan : ℕ → Exchange) (is_plan : (i : ℕ) → IsExchange from_now same deadline plan (plan i))
    (s : BaseSocket) where
  scheduled :
      (w : Wire)
      → IsBetween s true w
      → IsScheduled w.socket (plan w.turn).readings (plan w.turn).ends
  scheduled w h = record {
    disarmed = h.disarmed;
    posted = h.still_posted;
    readings = (is_plan w.turn).times;
    ends = (is_plan w.turn).end_clock;
  }

  exchanged-Leaves :
      (w : Wire) (fired : Option ℤ) (error : ErrorCode) (n : ℕ) (out : Outcome Transfer)
      → IsBetween s true w
      → Transferred w.socket fired error n out
      → let x = exchanged from_now same deadline plan w out in
        Leaves (IsBetween s true) (IsBetween s false) x.0 x.2
  unfolding exchanged
  exchanged-Leaves w none error n out h t = rw t.gives (
      inl (record {
        open_mode = t.opened ∙ h.open_mode;
        disarmed = t.disarmed;
        still_posted = t.still_posted;
        same_timeout = t.same_timeout ∙ h.same_timeout;
        same_mode = t.same_mode ∙ h.same_mode;
      }))
  exchanged-Leaves w (some late) error n out h t = rw t.gives (
      inr (
        record {
          open_mode = t.opened;
          disarmed = t.disarmed;
          still_posted = t.still_posted;
          same_timeout = t.same_timeout ∙ h.same_timeout;
          same_mode = t.same_mode ∙ h.same_mode;
        },
        refl,
      ))

  writes-Leaves :
      (w : Wire)
      → IsBetween s true w
      → let x = wire_write from_now same deadline plan w in
        Leaves (IsBetween s true) (IsBetween s false) x.0 x.2
  unfolding wire_write
  writes-Leaves w h =
      let x = plan w.turn in
      exchanged-Leaves w (first_due deadline x.readings) x.error x.written _ h (
        write_some-Transferred from_now never_due same x.starts (until deadline) x.readings x.ends
          x.error x.written [] w.socket (scheduled w h) refl (is_plan w.turn).final)

  reads-Leaves :
      (size : ℕ) (w : Wire)
      → IsBetween s true w
      → let x = wire_read from_now same deadline plan size w in
        Leaves (IsBetween s true) (IsBetween s false) x.0 x.2
  unfolding wire_read
  reads-Leaves size w h =
      let x = plan w.turn in
      exchanged-Leaves w (first_due deadline x.readings) x.error (x.read size) _ h (
        read_some-Transferred from_now never_due same x.starts (until deadline) x.readings x.ends
          x.error (x.read size) [] w.socket (scheduled w h) refl (is_plan w.turn).final)

  -- An operation that reports no error has not been stopped, and has its bytes.
  exchanged-fine :
      (w : Wire) (fired : Option ℤ) (error : ErrorCode) (n : ℕ) (out : Outcome Transfer)
      → IsBetween s true w
      → Transferred w.socket fired error n out
      → let x = exchanged from_now same deadline plan w out in
        failed x.2 ≡ false → (x.1 ≡ n) × (failed error ≡ false) × IsBetween s true x.0
  unfolding exchanged
  exchanged-fine w none error n out h t fine =
      let e : failed error ≡ false = rw t.gives at fine in
      (
        rw t.gives,
        e,
        rw t.gives (record {
          open_mode = t.opened ∙ h.open_mode;
          disarmed = t.disarmed;
          still_posted = t.still_posted;
          same_timeout = t.same_timeout ∙ h.same_timeout;
          same_mode = t.same_mode ∙ h.same_mode;
        }),
      )
  exchanged-fine w (some late) error n out h t fine =
      absurd (let e : failed timed_out ≡ false = rw t.gives at fine in ground (arith, e))

  WritesSome-wire_write : WritesSome (IsBetween s true) (wire_write from_now same deadline plan)
  unfolding wire_write
  WritesSome-wire_write w h fine =
      let x = plan w.turn in
      let (bytes, no_error, used) =
        exchanged-fine w (first_due deadline x.readings) x.error x.written _ h
          (write_some-Transferred from_now never_due same x.starts (until deadline) x.readings
            x.ends x.error x.written [] w.socket (scheduled w h) refl (is_plan w.turn).final)
          fine in
      (rw bytes ((is_plan w.turn).writes no_error), used)

  ReadsSome-wire_read : ReadsSome (IsBetween s true) (wire_read from_now same deadline plan)
  unfolding wire_read
  ReadsSome-wire_read size w h room fine =
      let x = plan w.turn in
      let (bytes, no_error, used) =
        exchanged-fine w (first_due deadline x.readings) x.error (x.read size) _ h
          (read_some-Transferred from_now never_due same x.starts (until deadline) x.readings x.ends
            x.error (x.read size) [] w.socket (scheduled w h) refl (is_plan w.turn).final)
          fine in
      let (some_read, fits) = (is_plan w.turn).reads size room no_error in
      (rw bytes some_read, rw bytes fits, used)

  module _ {R P B : Type 0} (serializer : Serializer R) (sending : SerializerLaws serializer)
      (parser : Parser P B) (buffer : Buffer B) (laws : ReceiveLaws parser buffer) where
    -- On an open stream socket without a deadline, whose operations each end for good and with some
    -- bytes or an error, and with a serializer, a buffer and a parser that behave as documented,
    -- perform under a deadline ends, with a response whose parser is done and no error or with none
    -- and an error; and either the socket is open as before, or it is closed and the code is
    -- timed_out. In both cases no deadline is left on the timer, a wait is posted and the settings
    -- are as before.
    pub perform-Survives :
        (fuel : ℕ) (request : R) (fresh : P) (b : B) (w : Wire) (ec : ErrorCode)
        → laws.parsed fresh ≡ 0
        → IsBetween s true w
        → sending.left request < fuel
        → laws.limit + laws.waiting + 1 < fuel
        → let write = wire_write from_now same deadline plan in
          let read = wire_read from_now same deadline plan in
          (x : B × Wire × Option P × ErrorCode) × (perform serializer parser buffer write read fuel
              request fresh b w ec
            ≡ some x)
          × IsResponse parser buffer read x.2 x.3
          × (IsBetween s true x.1 ⊎ (IsBetween s false x.1 × (x.3 ≡ timed_out)))
    perform-Survives fuel request fresh b w ec new used enough enough_too =
        let write = wire_write from_now same deadline plan in
        let read = wire_read from_now same deadline plan in
        let (x, e, responds) =
          perform-ends serializer sending parser buffer laws write read (IsBetween s true)
            WritesSome-wire_write ReadsSome-wire_read fuel request fresh b w ec new used enough
            enough_too in
        (
          x,
          e,
          responds,
          rw e at (
              perform-Leaves (IsBetween s true) (IsBetween s false) serializer parser buffer write
                writes-Leaves read reads-Leaves fuel request fresh b w ec used),
        )
