-- ===== src/Ssl/Engine.antt =====
-- The TLS stream over the operations of the socket below it (stream/ssl_stream_socket.hpp,
-- impl/ssl_stream_socket.ipp and impl/stream_socket.ipp): one deadline holds for all of them.
use stream_client.Common.{
  ◌≢◌, ℕ, ◌<◌, ◌≡◌, refl, inl, inr, Bool, true, false, Option, none, some, List, [], ◌∷◌, ◌++◌, map,
  if◌then◌else◌, Bool-cases, ℤ, arith,
}
use stream_client.ErrorCode.{ErrorCode, eof, failed}
use stream_client.Clock.{k_infinite_duration}
use stream_client.Timed.Defs.{Limit, lasting, NeverDue}
use stream_client.Timed.Operation.{timer, completes, Outcome, returns, is_would_block, run_one}
use stream_client.Timed.Deadline.{first_due, AllNow}
use stream_client.Timed.Limits.{arms, expiry_under, release-posted}
use stream_client.Timed.Completion.{completed, run_until_set-completes}
use stream_client.Socket.Defs.{BaseSocket, io_timeout, deadline_actor}
use stream_client.Socket.Stream.{Transfer, concluded, write_some, read_some}
use stream_client.Socket.Aliases.{write_some_timed, read_some_timed}
use stream_client.Socket.Timeouts.{started, start_operation-accepted, reported}

-- An operation of the socket below, and what surrounds it.
pub record Inner : Type 0 where
  pub writes : Bool
  pub starts : ℤ
  pub readings : List ℤ
  pub ends : ℤ
  pub error : ErrorCode
  pub bytes : ℕ

module _ (from_now : ℤ → ℤ → ℤ) (same : Bool) where
  -- The TLS stream calls write_some(buffers, ec) and read_some(buffers, ec).
  unfoldable pub inner_operation : Inner → BaseSocket → Outcome Transfer
  unfolding write_some_timed read_some_timed
  inner_operation x s =
      let events = map timer x.readings ++ completes x.ends x.error x.bytes ∷ [] in
      if x.writes
      then write_some_timed from_now same x.starts events s
      else read_some_timed from_now same x.starts events s

  pub record IsInner (x : Inner) : Type 0 where
    pub times : AllNow x.readings
    pub final : is_would_block same x.error ≡ false

  -- Documented behaviour of a call of the TLS stream: it carries out operations of the socket below,
  -- one after the other, and reports the error of the first that fails, or another for an end of the
  -- file; otherwise it ends by itself, with some code.
  pub data Drives : BaseSocket → BaseSocket → ErrorCode → Type 0 where
    ends : {s t : BaseSocket} (ec : ErrorCode) → t ≡ s → Drives s t ec
    stops :
        (x : Inner) {s t : BaseSocket} (n : ℕ) (ec : ErrorCode) {code : ErrorCode}
        → IsInner x
        → inner_operation x s ≡ returns (t, n, ec)
        → failed ec ≡ true
        → (ec ≢ eof → code ≡ ec)
        → Drives s t code
    goes_on :
        (x : Inner) {s : BaseSocket} (t : BaseSocket) (n : ℕ) (ec : ErrorCode) {u : BaseSocket}
        {e : ErrorCode}
        → IsInner x
        → inner_operation x s ≡ returns (t, n, ec)
        → failed ec ≡ false
        → Drives t u e
        → Drives s u e

  -- The operations that such a call carries out.
  abbrev pub operations : {s t : BaseSocket} {ec : ErrorCode} → Drives s t ec → List Inner
  operations (ends ec e) = []
  operations (stops x n ec is e bad mapped) = x ∷ []
  operations (goes_on x t n ec is e fine more) = x ∷ operations more

-- The timer shows an operation no time at or behind `deadline`.
abbrev pub IsInTime : ℤ → Inner → Type 0
IsInTime deadline x = first_due deadline x.readings ≡ none

abbrev pub AllInTime : ℤ → List Inner → Type 0
AllInTime deadline [] = Unit
AllInTime deadline (x ∷ xs) = IsInTime deadline x × AllInTime deadline xs

-- It shows such a time to the last of the operations, and to none before.
abbrev pub LastIsLate : ℤ → List Inner → Type 0
LastIsLate deadline [] = ⊥
LastIsLate deadline (x ∷ []) = (late : ℤ) × (first_due deadline x.readings ≡ some late)
LastIsLate deadline (x ∷ y ∷ xs) = IsInTime deadline x × LastIsLate deadline (y ∷ xs)

-- A socket under a TLS operation: its own timeouts are off. `s` gives the settings.
pub record IsUnder (s : BaseSocket) (is_open : Bool) (t : BaseSocket) : Type 0 where
  pub open_mode : t.is_open ≡ is_open
  pub still_posted : 0 < t.timed.posted
  pub same_timeout : t.io_operation_timeout ≡ s.io_operation_timeout
  pub untimed : t.io_timeouted ≡ false

-- How an inner operation ends.
pub record Ends (t : BaseSocket) (fired : Option ℤ) (error : ErrorCode) (n : ℕ)
    (out : Outcome Transfer) : Type 0 where
  pub after : BaseSocket
  pub gives : out ≡ returns (after, n, reported fired error)
  pub opened : after.is_open ≡ elim fired [ none ↦ t.is_open | some _ ↦ false ]
  pub still_posted : 0 < after.timed.posted
  pub same_timeout : after.io_operation_timeout ≡ t.io_operation_timeout
  pub same_mode : after.io_timeouted ≡ t.io_timeouted
  pub same_expiry : fired ≡ none → after.timed.expires_at ≡ t.timed.expires_at

module _ (from_now : ℤ → ℤ → ℤ) (never_due : NeverDue from_now) (same : Bool) where
  concluded-Ends :
      (now end_time : ℤ) (limit : Limit) (t : BaseSocket) (fired : Option ℤ) (error : ErrorCode)
      (n : ℕ)
      → 0 < t.timed.posted
      → arms limit ≡ false
      → expiry_under from_now now limit t.timed ≡ t.timed.expires_at
      → Ends t fired error n (
          concluded t (
            completed from_now deadline_actor
              (λ _ m. m)
              same
              end_time
              error
              n
              fired
              (started from_now now limit t)))
  unfolding concluded run_one deadline_actor
  concluded-Ends now end_time limit t none error n posted unset kept = record {
    after = _;
    gives = refl;
    opened = refl;
    still_posted = rw (release-posted from_now never_due) posted;
    same_timeout = refl;
    same_mode = refl;
    same_expiry = λ e. rw unset kept;
  }
  concluded-Ends now end_time limit t (some late) error n posted unset kept = record {
    after = _;
    gives = refl;
    opened = refl;
    still_posted = rw (release-posted from_now never_due) posted;
    same_timeout = refl;
    same_mode = refl;
    same_expiry = λ e. absurd (ground (arith, e));
  }

  write-Ends :
      (x : Inner) (t : BaseSocket)
      → IsInner from_now same x
      → 0 < t.timed.posted
      → io_timeout t ≡ k_infinite_duration
      → let limit = lasting (io_timeout t) in
        Ends t
          (first_due (expiry_under from_now x.starts limit t.timed) x.readings)
          x.error
          x.bytes
          (write_some from_now same x.starts limit
            (map timer x.readings ++ completes x.ends x.error x.bytes ∷ [])
            t)
  unfolding write_some
  write-Ends x t is posted infinite =
      let limit = lasting (io_timeout t) in
      rw
        (
          start_operation-accepted from_now x.starts limit t (rw infinite),
          run_until_set-completes from_now never_due deadline_actor (λ _ m. m) same x.readings
              x.ends x.error x.bytes [] (started from_now x.starts limit t)
              (record { waits = refl; runs = refl; not_fired = refl; is_posted = posted }) is.times
              is.final,
        )
        (concluded-Ends x.starts x.ends limit t
          (first_due (expiry_under from_now x.starts limit t.timed) x.readings) x.error x.bytes
          posted (rw infinite) (rw infinite))

  -- Its own limit is infinite, so an inner operation leaves the deadline of the TLS operation alone;
  -- where that fires, the inner operation reports it.
  pub inner_operation-Ends :
      (x : Inner) (t : BaseSocket)
      → IsInner from_now same x
      → 0 < t.timed.posted
      → t.io_timeouted ≡ false
      → Ends t
          (first_due t.timed.expires_at x.readings)
          x.error
          x.bytes
          (inner_operation from_now same x t)
  unfolding inner_operation write_some_timed read_some_timed write_some read_some io_timeout
  inner_operation-Ends x t is posted untimed =
      let infinite : io_timeout t ≡ k_infinite_duration = rw untimed in
      let ended = write-Ends x t is posted infinite in
      let same_expiry : expiry_under from_now x.starts (lasting (io_timeout t)) t.timed
          ≡ t.timed.expires_at =
        rw infinite in
      elim (Bool-cases x.writes) [
        | inl writes ↦ rw writes (rw same_expiry at ended)
        | inr reads ↦ rw reads (rw same_expiry at ended)
      ]
