-- ===== src/Connector/Examples.antt =====
-- A connector on concrete rounds and calls.
use stream_client.Common.{
  List, map, ℕ, ◌≡◌, refl, ◌⊎◌, inl, inr, true, false, none, [], ◌∷◌, ◌++◌, arith, Bool-cases, ℤ,
  pos, ◌-ℤ◌, ◌+ℤ◌,
}
use stream_client.Clock.{sub_time, k_infinite_duration}
use stream_client.Timed.Defs.{lasting}
use stream_client.Timed.Operation.{completes, Outcome, returns, throws, blocks, run_one}
use stream_client.Timed.Limits.{is_accepted}
use stream_client.Socket.Defs.{IsReady, BaseSocket, base_socket, set_options}
use stream_client.Socket.Connect.{base_socket-Results, base_socket-refused}
use stream_client.Socket.Fixtures.{from_now, from_now-NeverDue, late_readings}
use stream_client.Resolver.Defs.{any, Resolver, base_resolver}
use stream_client.Connector.Lookups.{
  Lookup, AllLookups, base_resolver-IsIdle, round_of, thread_routine, Looks, thread_routine-Looks,
}
use stream_client.Connector.Dialing.{
  Dial, IsDial, Built, built, threw, IsConstructor, new_session-IsReady, new_session-too_late,
}
use stream_client.ErrorCode.{
  ErrorCode, success, not_found, timed_out, operation_aborted, Throws, value, thrown,
}
use stream_client.Connector.Defs.{
  Connector, notifies_needed, RoundEnv, SessionEnv, base_connector, resolve_routine, new_session,
  connect_until, wait_done, act_all,
}
use stream_client.Connector.Recovery.{new_session-recovers}
use stream_client.Connector.Session.{Ends, new_session-Ends}

abbrev failing : RoundEnv ℕ
failing = record {
  running = true;
  locked = true;
  before = [];
  resolve_ec = not_found;
  resolved = [];
}

abbrev good : RoundEnv ℕ
good = record {
  running = true;
  locked = true;
  before = notifies_needed ∷ [];
  resolve_ec = success;
  resolved = 7 ∷ 8 ∷ [];
}

abbrev stale : Connector ℕ
stale = record {
  endpoints = 1 ∷ [];
  resolve_error = not_found;
  resolve_needed = true;
  resolve_done = true;
}

abbrev call : SessionEnv ℕ ℕ
call = record {
  locked = true;
  wakes = [];
  late = [];
  unlocked = [];
  shuffle_vector = λ es. es;
  connect = λ peer. thrown timed_out;
  connecting = [];
}

-- The one known endpoint no longer answers; a lookup fails, and the next finds two others.
abbrev settled : Connector ℕ
settled = record stale { resolve_error = success; resolve_needed = false }

new_session-recovers_example :
    resolve_routine ((failing ∷ []) ++ good ∷ []) (new_session call success settled).0 ≡ record {
      endpoints = 7 ∷ 8 ∷ [];
      resolve_error = success;
      resolve_needed = false;
      resolve_done = true;
    }
unfolding new_session wait_done
new_session-recovers_example =
    new_session-recovers call settled (failing ∷ []) good refl refl (tt, tt) ((refl, inr refl), tt)
      tt refl refl refl

new_session-Ends_example : Ends call stale (new_session call success stale)
new_session-Ends_example = new_session-Ends call stale

-- A connection that takes 900 ns, from any peer.
abbrev dial : ℕ → Dial
dial peer = record {
  begins = pos 100;
  opened = true;
  readings = [];
  done_time = pos 1_000;
  error = success;
  options = [];
  ends = pos 1_100;
}

dial-IsDial : (peer : ℕ) → IsDial false (dial peer)
dial-IsDial peer = record {
  begins_now = omega arith;
  readings_now = tt;
  ends_now = omega arith;
  final = refl;
}

-- An outcome as the caller has it; the one that blocks is not met here.
abbrev as_caller : {A : Type 0} → Outcome A → Throws A
as_caller (returns a) = value a
as_caller (throws e) = thrown e
as_caller blocks = thrown operation_aborted

abbrev stream : ℕ → ℤ → ℤ → Throws BaseSocket
stream peer connect_timeout operation_timeout = as_caller (
    base_socket from_now false (pos 100) connect_timeout operation_timeout true
      (completes (pos 1_000) success tt ∷ []) [] (pos 1_100))

as_caller-Built :
    {A : Type 0} (o : Outcome A)
    → ((a : A) × (o ≡ returns a)) ⊎ ((e : ErrorCode) × (o ≡ throws e))
    → Built o (as_caller o)
as_caller-Built o (inl (a, e)) = rw e (built a)
as_caller-Built o (inr (ec, e)) = rw e (threw ec)

stream-IsConstructor :
    IsConstructor from_now from_now-NeverDue false (pos 5_000) dial dial-IsDial stream
unfolding set_options
stream-IsConstructor peer connect_timeout =
    as_caller-Built _ (elim (Bool-cases (is_accepted (lasting connect_timeout))) [
      | inl accepted ↦
          let done =
            base_socket-Results from_now from_now-NeverDue false (pos 100) connect_timeout
              (pos 5_000) true [] [] (pos 1_000) (pos 1_100) success [] accepted refl (omega arith)
              tt (omega arith) in
          inl (done.after, done.gives)
      | inr refused ↦ inr (
        timed_out,
        base_socket-refused from_now from_now-NeverDue false (pos 100) connect_timeout (pos 5_000)
            true [] (completes (pos 1_000) success tt ∷ []) (pos 1_100) refused,
      )
    ])

-- A call at 50 under a deadline that leaves 2 ms, and one under a deadline of 40.
abbrev dialing : ℤ → SessionEnv ℕ BaseSocket
dialing deadline = record {
  locked = true;
  wakes = [];
  late = [];
  unlocked = [];
  shuffle_vector = λ es. es;
  connect = connect_until (pos 50) (pos 5_000) stream deadline;
  connecting = [];
}

abbrev session : BaseSocket
session = record {
  timed = record { deadline_fired = false; expires_at = k_infinite_duration; posted = 1 };
  is_open = true;
  connection_timeout = pos 2_000_000;
  io_operation_timeout = pos 5_000;
  io_timeouted = true;
}

new_session-IsReady_example : IsReady (pos 5_000) session
unfolding new_session connect_until base_socket sub_time ◌-ℤ◌ ◌+ℤ◌ run_one
new_session-IsReady_example =
    new_session-IsReady from_now from_now-NeverDue false (pos 5_000) dial dial-IsDial stream
      (dialing (pos 2_000_050)) stale (pos 50) (pos 2_000_050) session stream-IsConstructor refl
      refl

new_session-too_late_example :
    new_session (dialing (pos 40)) success stale ≡ (stale, none, timed_out)
unfolding wait_done act_all sub_time ◌-ℤ◌
new_session-too_late_example =
    new_session-too_late from_now from_now-NeverDue false (pos 5_000) dial dial-IsDial stream
      (dialing (pos 40)) stale (pos 50) (pos 40) 1 [] stream-IsConstructor refl refl refl refl

-- The first query takes longer than the 1 ms that it has, the second does not.
abbrev lookups : List (Lookup ℕ)
lookups =
    record {
      running = true;
      locked = true;
      before = [];
      starts = pos 100;
      readings = late_readings;
      ends = pos 1_000_300;
      error = operation_aborted;
      endpoints = [];
    }
    ∷ record {
      running = true;
      locked = true;
      before = notifies_needed ∷ [];
      starts = pos 2_000_000;
      readings = [];
      ends = pos 2_000_300;
      error = success;
      endpoints = 7 ∷ 8 ∷ [];
    }
    ∷ []

lookups-AllLookups : AllLookups from_now false lookups
lookups-AllLookups = (
  record { times = omega arith; end_clock = omega arith; final = refl },
  (record { times = tt; end_clock = omega arith; final = refl }, tt),
)

abbrev resolver : Resolver
resolver = base_resolver from_now (pos 50) (pos 1_000_000) any

thread_routine-Looks_example :
    Looks from_now false
      (pos 1_000_000)
      (resolve_routine
        (map (round_of from_now false (pos 1_000_000)) lookups)
        (base_connector {E = ℕ}))
      (thread_routine from_now false lookups (resolver, base_connector))
thread_routine-Looks_example =
    thread_routine-Looks from_now from_now-NeverDue false (pos 1_000_000) lookups resolver
      base_connector refl lookups-AllLookups
      (base_resolver-IsIdle from_now (pos 50) (pos 1_000_000) any from_now-NeverDue (omega arith))

-- The endpoints of the second query are there in the end.
finds_endpoints :
    (resolve_routine
      (map (round_of from_now false (pos 1_000_000)) lookups)
      (base_connector {E = ℕ})).endpoints
    ≡ 7 ∷ 8 ∷ []
unfolding resolve_routine base_connector ◌+ℤ◌
finds_endpoints = refl
