-- ===== src/Resolver/Examples.antt =====
-- A resolution whose deadline fires.
use stream_client.Common.{ℕ, refl, false, none, some, [], ◌∷◌, ◌++◌, map, arith, pos}
use stream_client.ErrorCode.{operation_aborted}
use stream_client.Timed.Defs.{until}
use stream_client.Timed.Operation.{timer, completes}
use stream_client.Socket.Fixtures.{from_now, from_now-NeverDue, idle, late_readings}
use stream_client.Resolver.Defs.{Resolver, resolve}
use stream_client.Resolver.Resolve.{Resolves, resolve-Resolves}

abbrev ready : Resolver
ready = record {
  timed = idle.timed;
  resolve_timeout = pos 5_000;
  query_version = none;
  cancelled = false;
}

resolve-Resolves_example : Resolves {E = ℕ} ready (some (pos 1_000_100)) operation_aborted [] (
    resolve from_now false
      (pos 100)
      (until (pos 1_000_050))
      (map timer late_readings ++ completes (pos 1_000_300) operation_aborted [] ∷ [])
      ready)
resolve-Resolves_example =
    resolve-Resolves from_now from_now-NeverDue false (pos 100) (until (pos 1_000_050)) ready
      late_readings (pos 1_000_300) operation_aborted [] [] (λ now le. le) (omega arith)
      (omega arith) (omega arith) refl refl
