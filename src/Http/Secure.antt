-- ===== src/Http/Secure.antt =====
-- The HTTP socket (include/stream-client/stream/http_socket.hpp, impl/http_socket.ipp) over the TLS
-- socket of stream/ssl_stream_socket.hpp, as https_client is.
pub mod Defs
use mathlib.Core.Path.{subst}
use stream_client.Common.{
  List, ℕ, suc, ◌+◌, ◌≤◌, ◌<◌, ◌≡◌, refl, sym, ap, ◌∙◌, ◌⊎◌, inl, inr, Bool, true, false, Option,
  some, ℤ,
}
use stream_client.ErrorCode.{ErrorCode, timed_out, Throws, value, thrown, failed}
use stream_client.Clock.{IsNow}
use stream_client.Timed.Defs.{until, NeverDue}
use stream_client.Socket.Defs.{BaseSocket}
use stream_client.Ssl.Defs.{limited, write_some, read_some}
use stream_client.Ssl.Modes.{limited_lem, under_limit}
use stream_client.Ssl.Engine.{Drives}
use stream_client.Ssl.Engine.{Inner}
use stream_client.Ssl.Deadline.{IsIdle, Conducts, write_some-Conducts}
use stream_client.Http.Defs.{Serializer, Parser, Buffer, perform}
use stream_client.Http.Requests.{SerializerLaws, WritesSome}
use stream_client.Http.Responses.{IsResponse}
use stream_client.Http.Receives.{ReceiveLaws, ReadsSome}
use stream_client.Http.Performs.{perform-ends}
use stream_client.Http.Stops.{Leaves, used_if_fine, perform-Leaves}
use stream_client.Http.Secure.Defs.{
  Exchange, Wire, passed, secure_write, secure_read, IsLayer, IsExchange,
}

module _ (from_now : ℤ → ℤ → ℤ) (never_due : NeverDue from_now) (same : Bool) (deadline : ℤ)
    (plan : ℕ → Exchange) (is_plan : (i : ℕ) → IsExchange from_now same deadline plan (plan i))
    (s : BaseSocket) where
  -- The socket below is between two operations, open or closed.
  abbrev pub IsBetween : Bool → Wire → Type 0
  IsBetween is_open w = IsIdle s is_open w.socket

  IsIdle-trans :
      {is_open was_open : Bool} {t u : BaseSocket}
      → IsIdle s was_open t
      → IsIdle t is_open u
      → IsIdle s is_open u
  IsIdle-trans h k = record {
    open_mode = k.open_mode;
    disarmed = k.disarmed;
    still_posted = k.still_posted;
    same_timeout = k.same_timeout ∙ h.same_timeout;
    same_mode = k.same_mode ∙ h.same_mode;
  }

  IsIdle-kept : {t u : BaseSocket} → IsIdle s true t → IsIdle t t.is_open u → IsIdle s true u
  IsIdle-kept h k = record {
    open_mode = k.open_mode ∙ h.open_mode;
    disarmed = k.disarmed;
    still_posted = k.still_posted;
    same_timeout = k.same_timeout ∙ h.same_timeout;
    same_mode = k.same_mode ∙ h.same_mode;
  }

  passed-Leaves :
      (w : Wire) (r : BaseSocket × Throws (ℕ × ErrorCode))
      → IsBetween true w
      → {due : ℤ} {ops : List Inner} → Conducts due ops w.socket r
      → let x = passed from_now same deadline plan w.turn r in
        Leaves (IsBetween true) (IsBetween false) x.0 x.2
  unfolding passed
  passed-Leaves w (t, value (n, ec)) h c =
      let e : ◌≡◌ {A = Throws (ℕ × ErrorCode)} (value (n, ec)) (value (c.bytes, c.code)) =
        c.reports in
      let same_code : ec ≡ c.code = cc in
      elim c.leaves [
        | inl (in_time, k) ↦ inl (IsIdle-kept h k)
        | inr (is_late, k, late) ↦ inr (IsIdle-trans h k, same_code ∙ late)
      ]
  passed-Leaves w (t, thrown ec) h c = absurd (
      let e : ◌≡◌ {A = Throws (ℕ × ErrorCode)} (thrown ec) (value (c.bytes, c.code)) = c.reports in
      cc)

  writes-Leaves :
      (w : Wire)
      → IsBetween true w
      → let x = secure_write from_now same deadline plan w in
        Leaves (IsBetween true) (IsBetween false) x.0 x.2
  unfolding secure_write
  writes-Leaves w h =
      let x = plan w.turn in
      passed-Leaves w _ h
        (write_some-Conducts from_now never_due same w.socket x.starts (until deadline) x.write
          (is_plan w.turn).write_drives x.ends refl refl (is_plan w.turn).end_clock
          h.still_posted).0

  reads-Leaves :
      (size : ℕ) (w : Wire)
      → IsBetween true w
      → let x = secure_read from_now same deadline plan size w in
        Leaves (IsBetween true) (IsBetween false) x.0 x.2
  unfolding secure_read
  reads-Leaves size w h =
      let x = plan w.turn in
      passed-Leaves w _ h
        (write_some-Conducts from_now never_due same w.socket x.starts (until deadline)
          (x.read size) ((is_plan w.turn).read_drives size) x.ends refl refl
          (is_plan w.turn).end_clock h.still_posted).1

  -- What a TLS operation gives is what its call of the TLS stream gives.
  passed-limited :
      (turn : ℕ) (x : Exchange) (layer : BaseSocket → BaseSocket × ℕ × ErrorCode) (t : BaseSocket)
      → let r =
          passed from_now same deadline plan turn
            (limited from_now x.starts (until deadline) layer x.ends t) in
        let done = layer (under_limit from_now x.starts (until deadline) t) in
        (r.1 ≡ done.1) × (r.2 ≡ done.2)
  unfolding passed
  passed-limited turn x layer t =
      let e = limited_lem from_now never_due x.starts (until deadline) layer x.ends t refl in
      (
        ap (λ r. (passed from_now same deadline plan turn r).1) e,
        ap (λ r. (passed from_now same deadline plan turn r).2) e,
      )

  WritesSome-secure_write : WritesSome (IsBetween true) (secure_write from_now same deadline plan)
  unfolding secure_write write_some
  WritesSome-secure_write w h fine =
      let x = plan w.turn in
      let under = under_limit from_now x.starts (until deadline) w.socket in
      let write = secure_write from_now same deadline plan w in
      let (bytes, code) = passed-limited w.turn x x.write w.socket in
      (
        subst (λ n. 0 < n) (sym bytes)
            ((is_plan w.turn).writes under h.still_posted refl (ap failed (sym code) ∙ fine)),
        used_if_fine (IsBetween true) (IsBetween false) write.0 write.2 (writes-Leaves w h) fine,
      )

  ReadsSome-secure_read : ReadsSome (IsBetween true) (secure_read from_now same deadline plan)
  unfolding secure_read read_some
  ReadsSome-secure_read size w h room fine =
      let x = plan w.turn in
      let under = under_limit from_now x.starts (until deadline) w.socket in
      let read = secure_read from_now same deadline plan size w in
      let (bytes, code) = passed-limited w.turn x (x.read size) w.socket in
      let (some_read, fits) =
        (is_plan w.turn).reads size under h.still_posted refl room (ap failed (sym code) ∙ fine) in
      (
        subst (λ n. 0 < n) (sym bytes) some_read,
        subst (λ n. n ≤ size) (sym bytes) fits,
        used_if_fine (IsBetween true) (IsBetween false) read.0 read.2 (reads-Leaves size w h) fine,
      )

  module _ {R P B : Type 0} (serializer : Serializer R) (sending : SerializerLaws serializer)
      (parser : Parser P B) (buffer : Buffer B) (laws : ReceiveLaws parser buffer) where
    -- If each call of the TLS stream drives operations of an open socket below that has no
    -- deadline, each ending for good, passes on the error of the first that fails, but for an end
    -- of the file, and transfers some bytes or reports an error, and if the serializer, the buffer
    -- and the parser behave as documented, then perform over the TLS socket under a deadline ends,
    -- with a response whose parser is done and no error or with none and an error; and either the
    -- socket below is open as before, or it is closed and the code is timed_out. In both cases no
    -- deadline is left on the timer, a wait is posted and the settings are as before.
    pub perform-SurvivesTls :
        (fuel : ℕ) (request : R) (fresh : P) (b : B) (w : Wire) (ec : ErrorCode)
        → laws.parsed fresh ≡ 0
        → IsBetween true w
        → sending.left request < fuel
        → laws.limit + laws.waiting + 1 < fuel
        → let write = secure_write from_now same deadline plan in
          let read = secure_read from_now same deadline plan in
          (x : B × Wire × Option P × ErrorCode) × (perform serializer parser buffer write read fuel
              request fresh b w ec
            ≡ some x)
          × IsResponse parser buffer read x.2 x.3
          × (IsBetween true x.1 ⊎ (IsBetween false x.1 × (x.3 ≡ timed_out)))
    perform-SurvivesTls fuel request fresh b w ec new used enough enough_too =
        let write = secure_write from_now same deadline plan in
        let read = secure_read from_now same deadline plan in
        let (x, e, responds) =
          perform-ends serializer sending parser buffer laws write read (IsBetween true)
            WritesSome-secure_write ReadsSome-secure_read fuel request fresh b w ec new used enough
            enough_too in
        (
          x,
          e,
          responds,
          rw e at (
              perform-Leaves (IsBetween true) (IsBetween false) serializer parser buffer write
                writes-Leaves read reads-Leaves fuel request fresh b w ec used),
        )
