-- ===== src/Socket/Runs.antt =====
-- Any sequence of the timed operations of stream/stream_socket.hpp on one socket.
use stream_client.Common.{
  ℕ, ◌<◌, ◌≡◌, refl, ◌∙◌, Bool, true, false, ◌&&◌, Option, none, some, List, [], ◌∷◌, ◌++◌, map,
  arith, ℤ,
}
use stream_client.ErrorCode.{ErrorCode}
use stream_client.Clock.{IsNow}
use stream_client.Timed.Defs.{Limit, NeverDue, IsDisarmed}
use stream_client.Timed.Operation.{
  Event, timer, completes, Outcome, returns, is_would_block, is_try_again,
}
use stream_client.Timed.Deadline.{first_due, AllNow}
use stream_client.Timed.Fires.{fires_under, fires_under_lem}
use stream_client.Timed.Limits.{is_accepted, expiry_under}
use stream_client.Socket.Defs.{BaseSocket, after_loop}
use stream_client.Socket.Stream.{Transfer, send, receive, write_some, read_some}
use stream_client.Socket.Timeouts.{
  Transferred, IsScheduled, reported, send-Transferred, receive-Transferred, write_some-Transferred,
  read_some-Transferred,
}

pub data Method : Type 0 where
  sends receives writes_some reads_some : Method

-- A call, and what surrounds it: its limit, the clock at its start, the timer's readings before the
-- operation completes, when, with what and how many bytes.
pub record Call : Type 0 where
  pub method : Method
  pub limit : Limit
  pub starts : ℤ
  pub readings : List ℤ
  pub ends : ℤ
  pub error : ErrorCode
  pub bytes : ℕ

abbrev pub is_none : Option ℤ → Bool
is_none none = true
is_none (some t) = false

module _ (from_now : ℤ → ℤ → ℤ) (same : Bool) where
  unfoldable pub run_method : Method → ℤ → Limit → List (Event ℕ) → BaseSocket → Outcome Transfer
  unfolding send receive write_some read_some
  run_method sends now limit events s = send from_now same now limit events s
  run_method receives now limit events s = receive from_now same now limit events s
  run_method writes_some now limit events s = write_some from_now same now limit events s
  run_method reads_some now limit events s = read_some from_now same now limit events s

  unfoldable pub run_call : Call → BaseSocket → Outcome Transfer
  unfolding run_method
  run_call c s =
      run_method c.method c.starts c.limit
        (map timer c.readings ++ completes c.ends c.error c.bytes ∷ []) s

  -- One call after the other: the socket, and the bytes and codes in order.
  unfoldable pub run_calls : List Call → BaseSocket → Outcome (BaseSocket × List (ℕ × ErrorCode))
  unfolding run_call after_loop
  run_calls [] s = returns (s, [])
  run_calls (c ∷ cs) s =
      after_loop
        (λ r. after_loop (λ later. returns (later.0, (r.1, r.2) ∷ later.1)) (run_calls cs r.0))
        (run_call c s)

  -- A call under an accepted limit that completes for good.
  pub record IsCall (c : Call) : Type 0 where
    pub accepted : is_accepted c.limit ≡ true
    pub times : AllNow c.readings
    pub end_clock : IsNow c.ends
    pub final : is_would_block same c.error ≡ false
    pub last : is_try_again same c.error ≡ false

  abbrev pub AllCalls : List Call → Type 0
  AllCalls [] = Unit
  AllCalls (c ∷ cs) = IsCall c × AllCalls cs

  -- When the deadline of a call fires, by its own limit.
  abbrev pub fires_in : Call → Option ℤ
  fires_in c = fires_under from_now c.limit c.starts c.readings

  abbrev pub none_fires : List Call → Bool
  none_fires [] = true
  none_fires (c ∷ cs) = is_none (fires_in c) && none_fires cs

  abbrev pub results : List Call → List (ℕ × ErrorCode)
  results [] = []
  results (c ∷ cs) = (c.bytes, reported (fires_in c) c.error) ∷ results cs

  -- A run that gives each call the result that it has by its own limit alone.
  pub record Survives (s : BaseSocket) (cs : List Call)
      (out : Outcome (BaseSocket × List (ℕ × ErrorCode))) : Type 0 where
    pub after : BaseSocket
    pub gives : out ≡ returns (after, results cs)
    pub opened : after.is_open ≡ (s.is_open && none_fires cs)
    pub disarmed : IsDisarmed after.timed
    pub still_posted : 0 < after.timed.posted
    pub same_timeout : after.io_operation_timeout ≡ s.io_operation_timeout
    pub same_mode : after.io_timeouted ≡ s.io_timeouted

module _ (from_now : ℤ → ℤ → ℤ) (never_due : NeverDue from_now) (same : Bool) where
  run_method-Transferred :
      (m : Method) (now : ℤ) (limit : Limit) (ts : List ℤ) (end_time : ℤ) (error : ErrorCode)
      (n : ℕ) (s : BaseSocket)
      → IsScheduled s ts end_time
      → is_accepted limit ≡ true
      → is_would_block same error ≡ false
      → is_try_again same error ≡ false
      → Transferred s
          (first_due (expiry_under from_now now limit s.timed) ts)
          error
          n
          (run_method from_now same m now limit (map timer ts ++ completes end_time error n ∷ []) s)
  unfolding run_method
  run_method-Transferred sends now limit ts end_time error n s h accepted final last =
      send-Transferred from_now never_due same now limit ts end_time error n [] s h accepted final
        last
  run_method-Transferred receives now limit ts end_time error n s h accepted final last =
      receive-Transferred from_now never_due same now limit ts end_time error n [] s h accepted
        final last
  run_method-Transferred writes_some now limit ts end_time error n s h accepted final last =
      write_some-Transferred from_now never_due same now limit ts end_time error n [] s h accepted
        final
  run_method-Transferred reads_some now limit ts end_time error n s h accepted final last =
      read_some-Transferred from_now never_due same now limit ts end_time error n [] s h accepted
        final

  run_call-Transferred :
      (c : Call) (s : BaseSocket)
      → IsCall from_now same c
      → IsDisarmed s.timed
      → 0 < s.timed.posted
      → Transferred s (fires_in from_now same c) c.error c.bytes (run_call from_now same c s)
  unfolding run_call
  run_call-Transferred c s is idle posted_ =
      rw⁻¹ (fires_under_lem from_now c.limit c.starts c.readings s.timed idle is.times) (
        run_method-Transferred c.method c.starts c.limit c.readings c.ends c.error c.bytes s
          (record { disarmed = idle; posted = posted_; readings = is.times; ends = is.end_clock })
          is.accepted is.final is.last)

  stays_open :
      (fired : Option ℤ) (before between after rest : Bool)
      → between ≡ elim fired [ none ↦ before | some _ ↦ false ]
      → after ≡ (between && rest)
      → after ≡ (before && (is_none fired && rest))
  stays_open none before between after rest h k = rw⁻¹ h k
  stays_open (some t) before between after rest h k = ground arith

  pub run_calls-Survives :
      (cs : List Call) (s : BaseSocket)
      → AllCalls from_now same cs
      → IsDisarmed s.timed
      → 0 < s.timed.posted
      → Survives from_now same s cs (run_calls from_now same cs s)
  unfolding run_calls after_loop
  run_calls-Survives [] s h idle posted = record {
    after = s;
    gives = refl;
    opened = ground arith;
    disarmed = idle;
    still_posted = posted;
    same_timeout = refl;
    same_mode = refl;
  }
  run_calls-Survives (c ∷ cs) s h idle posted =
      let one = run_call-Transferred c s h.0 idle posted in
      let rest = run_calls-Survives cs one.after h.1 one.disarmed one.still_posted in
      record {
        after = rest.after;
        gives = rw (one.gives, after_loop, rest.gives) refl;
        opened =
            stays_open (fires_in from_now same c) s.is_open one.after.is_open rest.after.is_open
              (none_fires from_now same cs) one.opened rest.opened;
        disarmed = rest.disarmed;
        still_posted = rest.still_posted;
        same_timeout = rest.same_timeout ∙ one.same_timeout;
        same_mode = rest.same_mode ∙ one.same_mode;
      }
