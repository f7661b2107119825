-- ===== src/Pool/Usage.antt =====
-- A pool of sockets in use: a session is made, taken, used until a deadline fires, and given back.
use stream_client.Common.{true, false, [], some, refl, arith, pos}
use stream_client.ErrorCode.{success}
use stream_client.Socket.Defs.{BaseSocket, IsReady}
use stream_client.Socket.Fixtures.{from_now, from_now-NeverDue, idle, calls, calls-AllCalls}
use stream_client.Socket.Runs.{run_calls, results, Survives, run_calls-Survives}
use stream_client.Pool.Defs.{Pool, connection_pool, return_session, try_get_session}
use stream_client.Pool.Sockets.{
  Clients, Reach, start, later, gets, uses, gives_back, refills, AreSound, Reach-AreSound,
}

idle-IsReady : IsReady (pos 1_000_000) idle
idle-IsReady = record {
  is_opened = refl;
  no_deadline = λ now le. le;
  still_posted = omega arith;
  mode = refl;
  operations = refl;
}

run : Survives from_now false idle calls (run_calls from_now false calls idle)
run =
    run_calls-Survives from_now from_now-NeverDue false calls idle calls-AllCalls (λ now le. le)
      (omega arith)

abbrev empty : Pool BaseSocket
empty = record { pool_max_size = 2; idle_timeout = pos 100; sesson_pool = [] }

abbrev in_end : Clients
in_end = record {
  pool = return_session (λ s. s.is_open) (some (run.after)) true (pos 2_000_000) empty;
  held = [];
}

in_end-Reach : Reach from_now false (pos 1_000_000) 2 (pos 100) in_end
unfolding connection_pool return_session try_get_session
in_end-Reach =
    later
      (later
        (later (later start (refills idle true (pos 10) idle-IsReady))
          (gets idle empty success refl))
        (uses [] idle [] calls run.after (results from_now false calls) refl calls-AllCalls
          run.gives))
      (gives_back [] run.after [] true (pos 2_000_000) refl)

Reach-AreSound_example : AreSound from_now from_now-NeverDue false (pos 1_000_000) in_end
Reach-AreSound_example =
    Reach-AreSound from_now from_now-NeverDue false (pos 1_000_000) in_end-Reach
