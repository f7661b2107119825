-- ===== src/Pool/Runs.antt =====
-- Runs of the pool of connection_pool.hpp on concrete inputs. Sessions are numbers; numbers below
-- 1000 are open.
use stream_client.Common.{
  ℕ, ◌-◌, ◌*◌, ◌/◌, ◌^◌, ◌≡◌, refl, Bool, true, false, ◌&&◌, some, List, [], ◌∷◌, ◌++◌, arith, ltb,
  if◌then◌else◌, ℤ, pos, inr,
}
use mathlib.Core.List.Permᴰ
use stream_client.ErrorCode.{success, not_found, value}
use stream_client.Clock.{k_infinite_duration}
use stream_client.Connector.Defs.{
  notifies_needed, SessionEnv, RoundEnv, base_connector, resolve_routine, new_session_or_throw,
}
use stream_client.Strategy.Defs.{Conservative}
use stream_client.Pool.Defs.{
  Pool, Action, takes, returns, act_all, Wake, get_session, try_get_session,
}
use stream_client.Pool.Fifo.{sessions}
use stream_client.Pool.Size.{pool_size}
use stream_client.Pool.Watch
use stream_client.Pool.Watch.{AppendEnv, swept_size, watch_round, watch_pool_routine}
use stream_client.Pool.Strategies.{greedy_strategy, conservative_pool_strategy}
use stream_client.Pool.Queue.{all_given, QueueRun}
use stream_client.Pool.Refines.{Op, tries_get, returns_session, is_swept, run_ops, run_ops-QueueRun}
use stream_client.Pool.Order.{InOrder, watch_pool_routine-InOrder}
use stream_client.Pool.Waiting.{all_others, get_session-linearizes}
use stream_client.Pool.Calls.{
  Waits, get_session_for, try_get_session_for, is_connected_for, get_session_for-infinite,
}
use stream_client.Pool.Cycles.{IsSteady, conservative-fills}
use stream_client.Pool.Connected.{greedy_round-connects}

abbrev is_open : ℕ → Bool
is_open s = ltb s 1000

abbrev pool_of : List (ℤ × ℕ) → Pool ℕ
pool_of xs = record { pool_max_size = 3; idle_timeout = k_infinite_duration; sesson_pool = xs }

abbrev two : Pool ℕ
two = pool_of ((pos 40, 4) ∷ (pos 60, 6) ∷ [])

-- One session is taken, a closed one and an open one come back, and the pool is swept.
abbrev ops : List (Op ℕ)
ops =
    tries_get true success
    ∷ returns_session (some 2000) true (pos 70)
    ∷ returns_session (some 8) true (pos 80)
    ∷ is_swept (pos 90)
    ∷ []

run_ops-QueueRun_example :
    QueueRun (4 ∷ 6 ∷ []) (run_ops is_open ops two).0 (sessions (run_ops is_open ops two).1)
run_ops-QueueRun_example = run_ops-QueueRun is_open ops two

ops_give : all_given (run_ops is_open ops two).0 ≡ 4 ∷ []
unfolding run_ops
ops_give = refl

-- The pool is empty at first; two sessions come back during the wait, and one is taken by others.
abbrev wakes : List (Wake ℕ)
wakes =
    record { others = returns (pos 5) 8 ∷ takes ∷ []; expired = false }
    ∷ record { others = returns (pos 6) 9 ∷ []; expired = true }
    ∷ []

get_session-linearizes_example :
    (seen : List (Action ℕ)) × (unseen : List (Action ℕ)) × (all_others wakes ≡ seen ++ unseen)
    × (get_session true wakes success (pool_of [])
        ≡ try_get_session true success (act_all seen (pool_of [])))
get_session-linearizes_example = get_session-linearizes true wakes success (pool_of [])

abbrev lock_free : Waits ℕ
lock_free = record { locked = λ deadline. true; wakes = λ deadline. [] }

get_session_for-infinite_example :
    (get_session_for lock_free (pos 500) k_infinite_duration success two
      ≡ try_get_session_for lock_free (pos 500) k_infinite_duration success two)
    × ((is_connected_for lock_free (pos 500) k_infinite_duration success two).1 ≡ (true && true))
get_session_for-infinite_example =
    get_session_for-infinite lock_free (pos 500) success two (omega arith) (omega arith)
      (λ deadline passed. refl)

abbrev append_alone : ℕ → AppendEnv ℕ
append_alone i = record { others = []; locked = true; now = pos 150 }

abbrev smooth_round : Watch.RoundEnv ℕ
smooth_round = record {
  running = true;
  locked = true;
  now = pos 150;
  before = [];
  between = [];
  refilling = record {
    new_session = λ i. value i;
    started = pos 150;
    finished = pos 160;
    roll = 2 ^ 32 - 1;
  };
  appends = append_alone;
}

-- A session is taken while the watcher sleeps, and one is taken and given back behind the sweep.
abbrev busy_round : Watch.RoundEnv ℕ
busy_round = record smooth_round { before = takes ∷ []; between = takes ∷ returns (pos 155) 4 ∷ [] }

watch_pool_routine-InOrder_example :
    InOrder is_open two
      (watch_pool_routine (greedy_strategy ℕ) is_open (busy_round ∷ smooth_round ∷ []) (tt, two)).1
watch_pool_routine-InOrder_example =
    watch_pool_routine-InOrder (greedy_strategy ℕ) is_open (busy_round ∷ smooth_round ∷ []) tt two
      (omega arith) ((tt, (refl, tt), λ i. tt), ((tt, tt, λ i. tt), tt))

abbrev ready : Conservative
ready = record {
  wait_until = pos 0;
  initial_delay_ms = 50;
  delay_multiplier = 3;
  current_delay_ms = 0;
}

abbrev scaled : ℕ → ℕ → ℕ
scaled d roll = d * roll / (2 ^ 32 - 1)

steady : IsSteady (λ (s : ℕ). true) (pos 0) smooth_round
steady = record {
  smooth = record {
    got_lock = refl;
    alone = refl;
    alone_too = λ i. refl;
    got_locks = λ i. refl;
    given = λ i. i;
    connects = λ i. refl;
    opens = λ i. refl;
  };
  still = refl;
  runs = refl;
  ready = refl;
  clock = omega arith;
  stamps = λ i. omega arith;
}

-- Three rounds fill an empty pool for three.
conservative-fills_example :
    let r =
      watch_pool_routine
        (conservative_pool_strategy scaled ℕ)
        (λ s. true)
        (smooth_round ∷ smooth_round ∷ smooth_round ∷ [])
        (ready, pool_of []) in
    pool_size r.1 ≡ 3
conservative-fills_example =
    conservative-fills (λ s. true) scaled 3 (smooth_round ∷ smooth_round ∷ smooth_round ∷ []) ready
      (pool_of []) (steady, (steady, (steady, tt)))
      (record { same_size = refl; no_idle = refl; stamped = tt }) (omega arith) (omega arith)
      (omega arith)

abbrev failing : RoundEnv ℕ
failing = record {
  running = true;
  locked = true;
  before = [];
  resolve_ec = not_found;
  resolved = [];
}

abbrev good : RoundEnv ℕ
good = record failing { before = notifies_needed ∷ []; resolve_ec = success; resolved = 7 ∷ 8 ∷ [] }

abbrev call : ℕ → SessionEnv ℕ ℕ
call i = record {
  locked = true;
  wakes = [];
  late = [];
  unlocked = notifies_needed ∷ [];
  shuffle_vector = λ es. es;
  connect = λ peer. value peer;
  connecting = [];
}

abbrev dialing_round : Watch.RoundEnv ℕ
dialing_round = record smooth_round {
  refilling = record (smooth_round.refilling) {
    new_session = λ i.
        (new_session_or_throw (call i)
          (resolve_routine (failing ∷ good ∷ []) (base_connector {E = ℕ}))).1;
  };
}

greedy_round-connects_example :
    pool_size (watch_round (greedy_strategy ℕ) (λ s. true) dialing_round (tt, two)).1
    ≡ (if ltb (swept_size (pos 150) two) 3 then 3 else swept_size (pos 150) two)
greedy_round-connects_example =
    greedy_round-connects (λ s. true) (failing ∷ []) good call dialing_round two (tt, tt)
      ((refl, inr refl), tt) tt refl refl refl refl
      (λ i. record {
        gets_lock = refl;
        undisturbed = tt;
        permutes = Permᴰ.refl;
        session_of = λ peer. peer;
        answers = λ peer. refl;
        answers_open = λ peer. refl;
      })
      refl (record { got_lock = refl; alone = refl; alone_too = λ i. refl; got_locks = λ i. refl })
