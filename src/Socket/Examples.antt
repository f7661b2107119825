-- ===== src/Socket/Examples.antt =====
-- Timed operations on concrete schedules.
use stream_client.Common.{◌≡◌, refl, true, false, none, some, [], ◌∷◌, ◌++◌, map, arith, pos, ◌+ℤ◌}
use stream_client.ErrorCode.{success, eof}
use stream_client.Timed.Defs.{lasting, until}
use stream_client.Timed.Operation.{timer, completes}
use stream_client.Socket.Stream.{write_some, close_gracefully}
use stream_client.Socket.Timeouts.{Transferred, write_some-Transferred}
use stream_client.Socket.Close.{closed_session-returns}
use stream_client.Socket.Fixtures.{
  from_now, from_now-NeverDue, idle, idle-IsScheduled, readings, late_readings,
}
use stream_client.Socket.Defs.{base_socket, set_options, or_error}
use stream_client.Socket.Connect.{Results, base_socket-Results}
use stream_client.Socket.Dgram.{datagram_send, datagram_receive, datagram-Transferred}
use stream_client.Pool.Defs.{return_session}

-- The bytes come before the deadline at 1_000_100.
in_time : Transferred idle none success 10 (
    write_some from_now false
      (pos 100)
      (lasting (pos 1_000_000))
      (map timer readings ++ completes (pos 950_000) success 10 ∷ [])
      idle)
unfolding ◌+ℤ◌
in_time =
    write_some-Transferred from_now from_now-NeverDue false (pos 100) (lasting (pos 1_000_000))
      readings (pos 950_000) success 10 [] idle
      (idle-IsScheduled readings (pos 950_000) (omega arith) (omega arith)) refl refl

closed_session-returns_example :
    let r = close_gracefully success success idle in
    (r.1 ≡ success)
    × (return_session
          (λ x. x.is_open)
          (some r.0)
          true
          (pos 5)
          (record { pool_max_size = 2; idle_timeout = pos 100; sesson_pool = [] })
        ≡ record { pool_max_size = 2; idle_timeout = pos 100; sesson_pool = (pos 5, idle) ∷ [] })
closed_session-returns_example =
    closed_session-returns success idle (pos 5)
      (record { pool_max_size = 2; idle_timeout = pos 100; sesson_pool = [] }) refl

-- A connection that takes 900 ns of its 1 ms.
base_socket-Results_example : Results (pos 1_000_000) (pos 5_000) none (
    base_socket from_now false
      (pos 100)
      (pos 1_000_000)
      (pos 5_000)
      true
      (map timer readings ++ completes (pos 1_000) success tt ∷ [])
      (success ∷ success ∷ [])
      (pos 1_100))
unfolding ◌+ℤ◌ set_options or_error
base_socket-Results_example =
    base_socket-Results from_now from_now-NeverDue false (pos 100) (pos 1_000_000) (pos 5_000) true
      (success ∷ success ∷ []) readings (pos 1_000) (pos 1_100) success [] refl refl (omega arith)
      (omega arith) (omega arith)

datagram-Transferred_example :
    Transferred idle (some (pos 1_000_100)) eof 4 (
      datagram_send from_now false
        (pos 100)
        (until (pos 1_000_050))
        (map timer late_readings ++ completes (pos 1_000_300) eof 4 ∷ [])
        idle)
    × Transferred idle (some (pos 1_000_100)) eof 4 (
        datagram_receive from_now false
          (pos 100)
          (until (pos 1_000_050))
          (map timer late_readings ++ completes (pos 1_000_300) eof 4 ∷ [])
          idle)
datagram-Transferred_example =
    datagram-Transferred from_now from_now-NeverDue false (pos 100) (until (pos 1_000_050))
      late_readings (pos 1_000_300) eof 4 [] idle
      (idle-IsScheduled late_readings (pos 1_000_300) (omega arith) (omega arith)) refl refl refl
