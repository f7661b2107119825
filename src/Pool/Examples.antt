-- ===== src/Pool/Examples.antt =====
-- The pool at work on concrete inputs. Sessions are numbers; numbers below 1000 are open.
use stream_client.Common.{
  ℕ, ◌+◌, ◌-◌, ◌*◌, ◌/◌, ◌^◌, ◌≤◌, ◌≡◌, refl, ◌⊎◌, Bool, true, false, some, List, [], ◌∷◌, arith,
  ltb, ℤ, pos, ◌-ℤ◌,
}
use stream_client.ErrorCode.{ErrorCode, success, timed_out, Throws, value, thrown}
use stream_client.Clock.{sub_time}
use stream_client.Strategy.Defs.{RefillEnv, Conservative}
use stream_client.Strategy.Attempts.{attempts}
use stream_client.Pool.Defs.{
  Pool, takes, returns, Wake, connection_pool, erase_idle, get_session, try_get_session,
  return_session,
}
use stream_client.Pool.Fifo.{sessions, return_all, get_all, get_all-return_all}
use stream_client.Pool.Size.{pool_size, watch_round-size}
use stream_client.Pool.Watch.{
  AppendEnv, RoundEnv, at_once, watch_round, swept_size, vacant_places_of,
}
use stream_client.Pool.Strategies.{greedy_strategy, conservative_pool_strategy, refill_greedily}
use stream_client.Pool.Fill.{IsSmooth, conservative_round-adds}
use stream_client.Pool.Ownership.{System, gets, refills, Reach, start, later, Owned, Reach-Owned}

abbrev is_open : ℕ → Bool
is_open s = ltb s 1000

abbrev pool_of : List (ℤ × ℕ) → Pool ℕ
pool_of xs = record { pool_max_size = 3; idle_timeout = pos 100; sesson_pool = xs }

-- At 150 the session from 40 has idled for 110, the one from 60 for 90.
abbrev two : Pool ℕ
two = pool_of ((pos 40, 4) ∷ (pos 60, 6) ∷ [])

sweeps_one : erase_idle (pos 150) (pos 100) two.sesson_pool ≡ ((pos 60, 6) ∷ [], 1)
unfolding erase_idle sub_time ◌-ℤ◌
sweeps_one = refl

gets_oldest : get_session true [] success two ≡ (pool_of ((pos 60, 6) ∷ []), some 4, success)
unfolding get_session
gets_oldest = refl

-- The pool is empty at first; a session comes back during the wait.
abbrev wakes : List (Wake ℕ)
wakes = record { others = returns (pos 5) 8 ∷ []; expired = false } ∷ []

waits_for_return : get_session true wakes success (pool_of []) ≡ (pool_of [], some 8, success)
unfolding get_session
waits_for_return = refl

abbrev given_back : List (ℤ × ℕ)
given_back = (pos 70, 7) ∷ (pos 80, 8) ∷ (pos 90, 9) ∷ []

get_all-return_all_example :
    (get_all 5 (return_all is_open given_back two)).0 ≡ 4 ∷ 6 ∷ 7 ∷ 8 ∷ 9 ∷ []
get_all-return_all_example = get_all-return_all is_open given_back two (refl, (refl, (refl, tt)))

abbrev append_alone : ℕ → AppendEnv ℕ
append_alone i = record { others = []; locked = true; now = pos 150 }

abbrev round_with : (ℕ → Throws ℕ) → RoundEnv ℕ
round_with new_session = record {
  running = true;
  locked = true;
  now = pos 150;
  before = [];
  between = [];
  refilling = record {
    new_session = new_session;
    started = pos 150;
    finished = pos 160;
    roll = 2 ^ 32 - 1;
  };
  appends = append_alone;
}

abbrev smooth_round : RoundEnv ℕ
smooth_round = round_with (λ i. value (i + 20))

abbrev failing_round : RoundEnv ℕ
failing_round = round_with (λ i. thrown timed_out)

smooth_round-IsSmooth : IsSmooth (λ (s : ℕ). true) smooth_round
smooth_round-IsSmooth = record {
  got_lock = refl;
  alone = refl;
  alone_too = λ i. refl;
  got_locks = λ i. refl;
  given = λ i. i + 20;
  connects = λ i. refl;
  opens = λ i. refl;
}

-- A session is taken and another comes back behind the sweep, and one before each append.
abbrev shared_round : RoundEnv ℕ
shared_round = record smooth_round {
  between = takes ∷ returns (pos 151) 9 ∷ [];
  appends = λ i. record { others = returns (pos 152) 8 ∷ []; locked = true; now = pos 155 };
}

watch_round-size_example :
    let size = pool_size (watch_round (greedy_strategy ℕ) is_open shared_round (tt, two)).1 in
    (size ≤ 3 + 1 + vacant_places_of two (swept_size (pos 150) two) * 1) ⊎ (size ≤ 2 + 1)
watch_round-size_example =
    watch_round-size (greedy_strategy ℕ) is_open 1 shared_round tt two (omega arith)
      (λ i. omega arith)

shared_round-holds :
    pool_size (watch_round (greedy_strategy ℕ) is_open shared_round (tt, two)).1 ≡ 5
unfolding watch_round sub_time ◌-ℤ◌ refill_greedily stream_client.Strategy.Defs.greedy_refill
shared_round-holds = refl

fills :
    sessions (watch_round (greedy_strategy ℕ) is_open smooth_round (tt, two)).1 ≡ 6 ∷ 20 ∷ 21 ∷ []
unfolding watch_round refill_greedily stream_client.Strategy.Defs.greedy_refill sub_time ◌-ℤ◌
fills = refl

abbrev ready : Conservative
ready = record {
  wait_until = pos 0;
  initial_delay_ms = 50;
  delay_multiplier = 3;
  current_delay_ms = 0;
}

abbrev scaled : ℕ → ℕ → ℕ
scaled d roll = d * roll / (2 ^ 32 - 1)

conservative_round-adds_example :
    let r =
      watch_round (conservative_pool_strategy scaled ℕ) (λ s. true) smooth_round (ready, two) in
    (pool_size r.1
      ≡ swept_size (pos 150) two + attempts ready (vacant_places_of two (swept_size (pos 150) two)))
    × (r.0 ≡ ready)
    × (r.2 ≡ at_once)
unfolding vacant_places_of swept_size sub_time ◌-ℤ◌
conservative_round-adds_example =
    conservative_round-adds (λ s. true) scaled smooth_round ready two smooth_round-IsSmooth refl
      (omega arith) (omega arith)

none_connects : (i : ℕ) → (e : ErrorCode) × (failing_round.refilling.new_session i ≡ thrown e)
none_connects i = (timed_out, refl)

-- A session is made, taken by a client, and given back.
used : System
used = record { pool = pool_of []; held = 0 ∷ []; gone = []; fresh = 1 }

used-Reach : Reach is_open 3 (pos 100) used
unfolding used connection_pool return_session try_get_session
used-Reach = later (later start (refills true (pos 10))) (gets {ec = success} refl)

Reach-Owned_example : Owned used
Reach-Owned_example = Reach-Owned used-Reach
