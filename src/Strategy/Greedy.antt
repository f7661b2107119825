-- ===== src/Strategy/Greedy.antt =====
-- greedy_strategy.
use stream_client.Common.{ℕ, ◌+◌, false, arith}
use stream_client.Strategy.Defs.{RefillEnv, greedy_refill}
use stream_client.Strategy.Adders.{run_adders-keeps}

module _ {S W : Type 0} (P : ℕ → W → Type 0) (env : RefillEnv S) (append_func : ℕ → S → W → W)
    (append : (i j : ℕ) (s : S) (w : W) → P j w → P (j + 1) (append_func i s w))
    (step : (j : ℕ) (w : W) → P j w → P (j + 1) w) where
  -- A property that each append moves on by one is moved on by `vacant_places` at most.
  pub greedy_refill-keeps :
      (vacant_places : ℕ) (w : W)
      → P 0 w
      → P vacant_places (greedy_refill env vacant_places append_func w).0
  unfolding greedy_refill
  greedy_refill-keeps n w h =
      run_adders-keeps P append_func append step env.new_session n 0 0 n (w, false) (omega arith) h
