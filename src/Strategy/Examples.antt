-- ===== src/Strategy/Examples.antt =====
-- The strategies at work on concrete inputs.
use stream_client.Common.{
  ℕ, ◌+◌, ◌-◌, ◌*◌, ◌/◌, ◌^◌, ◌≡◌, refl, true, false, some, List, [], ◌∷◌, ◌++◌, arith, ℤ, pos,
  ◌+ℤ◌,
}
use stream_client.ErrorCode.{timed_out, value, thrown}
use stream_client.Clock.{add_time}
use stream_client.Strategy.Defs.{
  RefillEnv, Conservative, conservative_strategy, conservative_refill, greedy_refill,
}
use stream_client.Strategy.Backoff.{conservative_refill-holds_back}
use stream_client.Strategy.Delay.{IsSane, conservative_refill-IsSane}

-- The world is the list of the sessions added.
abbrev record_it : ℕ → ℕ → List ℕ → List ℕ
record_it i s w = w ++ s ∷ []

abbrev max_roll : ℕ
max_roll = 2 ^ 32 - 1

-- `d * (double(roll) / max)`, cut to an integer
abbrev scaled : ℕ → ℕ → ℕ
scaled d roll = d * roll / max_roll

abbrev initial : Conservative
initial = record {
  wait_until = pos 0;
  initial_delay_ms = 50;
  delay_multiplier = 3;
  current_delay_ms = 0;
}

abbrev refused_at : ℤ → ℤ → ℕ → RefillEnv ℕ
refused_at started finished roll = record {
  new_session = λ i. thrown timed_out;
  started = started;
  finished = finished;
  roll = roll;
}

abbrev connected_at : ℤ → RefillEnv ℕ
connected_at started = record {
  new_session = λ i. value (i + 70);
  started = started;
  finished = started;
  roll = 0;
}

initial_built : conservative_strategy 50 3 ≡ some initial
unfolding conservative_strategy
initial_built = refl

-- Seven vacant places: three attempts.
three_added :
    conservative_refill scaled (connected_at (pos 9)) 7 record_it initial []
    ≡ (initial, 70 ∷ 71 ∷ 72 ∷ [], true)
unfolding conservative_refill
three_added = refl

greedy_added : greedy_refill (connected_at (pos 9)) 2 record_it [] ≡ (70 ∷ 71 ∷ [], true)
unfolding greedy_refill
greedy_added = refl

-- A failure with the largest roll waits for the whole first delay.
fails_once :
    conservative_refill scaled (refused_at (pos 9) (pos 1000) max_roll) 7 record_it initial []
    ≡ (record initial { current_delay_ms = 50; wait_until = pos 50_001_000 }, [], false)
unfolding conservative_refill add_time ◌+ℤ◌
fails_once = refl

conservative_refill-holds_back_example :
    conservative_refill scaled
      (connected_at (pos 40_000_000))
      5
      record_it
      (record initial { current_delay_ms = 50; wait_until = pos 50_001_000 })
      []
    ≡ (record initial { current_delay_ms = 50; wait_until = pos 50_001_000 }, [], false)
unfolding conservative_refill add_time ◌+ℤ◌
conservative_refill-holds_back_example =
    conservative_refill-holds_back scaled (refused_at (pos 9) (pos 1000) max_roll)
      (connected_at (pos 40_000_000)) 7 5 record_it record_it initial [] [] refl refl (omega arith)
      (omega arith) (omega arith)

initial-IsSane : IsSane initial
initial-IsSane = record { bounded = omega arith; positive = omega arith; narrow = omega arith }

conservative_refill-IsSane_example :
    IsSane
      (conservative_refill scaled (refused_at (pos 9) (pos 1000) max_roll) 7 record_it initial []).0
conservative_refill-IsSane_example =
    conservative_refill-IsSane scaled (refused_at (pos 9) (pos 1000) max_roll) 7 record_it initial
      [] initial-IsSane

abbrev delayed : Conservative
delayed = record initial { current_delay_ms = 50 }

delayed-IsSane : IsSane delayed
delayed-IsSane = record { bounded = omega arith; positive = omega arith; narrow = omega arith }
