-- ===== src/Ssl/Examples.antt =====
-- Calls of a TLS stream that transfers a fixed number of bytes.
use stream_client.Common.{
  ◌<◌, List, ℕ, ◌≡◌, ◌⊎◌, true, false, none, refl, [], ◌∷◌, arith, pos, ◌+ℤ◌, false,
}
use stream_client.ErrorCode.{ErrorCode, success, timed_out, value, thrown, failed}
use stream_client.Clock.{k_infinite_duration, add_time}
use stream_client.Timed.Defs.{lasting, until}
use stream_client.Timed.Operation.{blocks}
use stream_client.Ssl.Engine.{Drives, operations, LastIsLate, Inner, IsInner}
use stream_client.Ssl.Deadline.{Conducts, write_some-Conducts}
use stream_client.Socket.Defs.{BaseSocket, IsReady, io_timeout}
use stream_client.Ssl.Fixtures.{carries, carries-Drives, carries-operations}
use stream_client.Socket.Fixtures.{from_now, from_now-NeverDue, idle}
use stream_client.Ssl.Defs.{Call, write_some, read_some, send, stream_socket}
use stream_client.Ssl.Connect.{stream_socket-result}
use stream_client.Ssl.Modes.{under_limit, write_some-forgets_mode}
use stream_client.Ssl.Loops.{send-overshoots}

abbrev transfers : ℕ → ErrorCode → BaseSocket → BaseSocket × ℕ × ErrorCode
transfers n ec s = (s, n, ec)

abbrev call : ℕ → Call
call n = record { now = pos 100; layer = transfers n success; end_time = pos 200 }

write_some-forgets_mode_example :
    let r =
      write_some from_now (pos 100) (lasting (pos 999)) (transfers 9 success) (pos 200) idle in
    (r.1 ≡ thrown timed_out) × (io_timeout r.0 ≡ k_infinite_duration)
write_some-forgets_mode_example =
    write_some-forgets_mode from_now from_now-NeverDue (pos 100) (lasting (pos 999))
      (transfers 9 success) (pos 200) idle refl

-- A record of 16384 bytes for a buffer of 20000.
send-overshoots_example :
    send from_now 20000 (pos 5_000) (call 16384 ∷ call 16384 ∷ call 16384 ∷ []) success idle
    ≡ blocks
send-overshoots_example =
    send-overshoots from_now from_now-NeverDue 20000 (pos 5_000) (call 16384) (call 16384) 16384
      16384 (call 16384 ∷ []) idle (λ s. (refl, refl)) (λ s. (refl, refl)) (omega arith)
      (16384, λ s. (refl, refl), omega arith, tt) (omega arith) (omega arith) (omega arith)

abbrev shakes : BaseSocket → BaseSocket × Unit {0} × ErrorCode
shakes s = (s, tt, success)

abbrev shaking_idle : BaseSocket
shaking_idle = under_limit from_now (pos 200) (until (pos 5_100)) idle

stream_socket-result_example :
    let r =
      stream_socket from_now
        (pos 100)
        (pos 5_000)
        (value idle)
        none
        true
        (pos 200)
        shakes
        (pos 300) in
    ((failed (shakes shaking_idle).2 ≡ true) × (r ≡ thrown (shakes shaking_idle).2))
    ⊎ ((failed (shakes shaking_idle).2 ≡ false)
        × (t : BaseSocket) × (r ≡ value t)
        × IsReady (pos 1_000_000) t)
unfolding add_time ◌+ℤ◌
stream_socket-result_example =
    stream_socket-result from_now from_now-NeverDue (pos 100) (pos 5_000) (pos 200) shakes
      (record { same_timeout = λ s. refl; stays_open = λ s h. refl; stays_posted = λ s h. h })
      (pos 300) (omega arith) idle (pos 1_000_000)
      (record {
        is_opened = refl;
        no_deadline = λ now le. le;
        still_posted = omega arith;
        mode = refl;
        operations = refl;
      })

-- A TLS stream that writes one record, which does not get through before the deadline.
abbrev record_write : Inner
record_write = record {
  writes = true;
  starts = pos 150;
  readings = pos 3_000 ∷ pos 6_000 ∷ [];
  ends = pos 7_000;
  error = success;
  bytes = 30;
}

record_write-IsInner : IsInner from_now false record_write
record_write-IsInner = record { times = omega arith; final = refl }

record_write-Drives :
    (t : BaseSocket)
    → 0 < t.timed.posted
    → t.io_timeouted ≡ false
    → Drives from_now false t (carries record_write t).0 (carries record_write t).2
record_write-Drives = carries-Drives record_write record_write-IsInner

idle-posted : 0 < idle.timed.posted
idle-posted = omega arith

abbrev records : List Inner
records =
    operations from_now false (
      record_write-Drives (under_limit from_now (pos 100) (until (pos 5_000)) idle) idle-posted
        refl)

write_some-Conducts_example :
    let limit = until (pos 5_000) in
    let layer = carries record_write in
    Conducts (pos 5_000) records idle (write_some from_now (pos 100) limit layer (pos 7_100) idle)
    × Conducts (pos 5_000) records idle (read_some from_now (pos 100) limit layer (pos 7_100) idle)
write_some-Conducts_example =
    write_some-Conducts from_now from_now-NeverDue false idle (pos 100) (until (pos 5_000))
      (carries record_write) record_write-Drives (pos 7_100) refl refl (omega arith) idle-posted

-- The record is the only operation, and it is late.
records_lem : records ≡ record_write ∷ []
unfolding record_write-Drives
records_lem =
    carries-operations record_write record_write-IsInner
      (under_limit from_now (pos 100) (until (pos 5_000)) idle) idle-posted refl

late_record : LastIsLate (pos 5_000) (record_write ∷ [])
late_record = (pos 6_000, refl)
