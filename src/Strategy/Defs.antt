-- ===== src/Strategy/Defs.antt =====
-- include/stream-client/connector/pool_strategy.hpp and impl/pool_strategy.ipp.
-- A strategy adds sessions to a world `W` by `append_func`. The attempts of its threads are numbered
-- in the order in which they end: attempt `i` gets what `new_session i` says, and a session that it
-- connects is added by `append_func i`, which also knows what other threads do in between.
use stream_client.Common.{
  ℕ, zero, suc, ◌+◌, ◌-◌, ◌*◌, ◌/◌, ◌%◌, ◌^◌, min, Bool, true, false, ◌&&◌, Option, none, some, ltb,
  ◌==◌, if◌then◌else◌, ℤ, pos, ltb_ℤ,
}
use stream_client.ErrorCode.{Throws, value, thrown}
use stream_client.Clock.{add_time}

abbrev pub size_mod : ℕ
size_mod = 2 ^ 64

-- What the environment contributes to one call of refill.
pub record RefillEnv (S : Type 0) : Type 0 where
  pub new_session : ℕ → Throws S
  pub started : ℤ  -- the clock at the entry
  pub finished : ℤ  -- the clock after a failure
  pub roll : ℕ  -- `r_generator_()`

module _ {S W : Type 0} where
  -- The lambda `add_session`, with `is_added`.
  unfoldable pub add_session : Throws S → (S → W → W) → W × Bool → W × Bool
  add_session (value s) append_func (w, is_added) = (append_func s w, true)
  add_session (thrown e) append_func (w, is_added) = (w, is_added)

  -- `n` runs of `add_session`, attempts `i`, `i + 1`, …, and the joins.
  unfoldable pub run_adders : ℕ → ℕ → (ℕ → Throws S) → (ℕ → S → W → W) → W × Bool → W × Bool
  unfolding add_session
  run_adders zero i new_session append_func acc = acc
  run_adders (suc n) i new_session append_func acc =
      run_adders n (i + 1) new_session append_func (add_session (new_session i) (append_func i) acc)

  -- greedy_strategy::refill
  unfoldable pub greedy_refill : RefillEnv S → ℕ → (ℕ → S → W → W) → W → W × Bool
  unfolding run_adders
  greedy_refill env vacant_places append_func w =
      ((run_adders vacant_places 0 env.new_session append_func (w, false)).0, ltb 0 vacant_places)

abbrev pub k_max_backoff_ms : ℕ
k_max_backoff_ms = 10000

abbrev pub k_default_delay_ms : ℕ
k_default_delay_ms = 50

abbrev pub k_default_delay_mul : ℕ
k_default_delay_mul = 3

-- The fields of conservative_strategy.
pub record Conservative : Type 0 where
  pub wait_until : ℤ
  pub initial_delay_ms : ℕ
  pub delay_multiplier : ℕ
  pub current_delay_ms : ℕ

-- The constructor; `none` where it throws.
unfoldable pub conservative_strategy : ℕ → ℕ → Option Conservative
conservative_strategy first_delay_ms delay_multiplier =
    if ltb delay_multiplier 1
    then none
    else some (record {
      wait_until = pos 0;
      initial_delay_ms = first_delay_ms;
      delay_multiplier = delay_multiplier;
      current_delay_ms = 0;
    })

-- `(vacant_places + 2) / 3 - 1` in size_t
unfoldable pub parallel_adders : ℕ → ℕ
parallel_adders vacant_places = ((vacant_places + 2) % size_mod / 3 + size_mod - 1) % size_mod

-- How many threads are started beside the call's own attempt.
unfoldable pub extra_adders : Conservative → ℕ → ℕ
unfolding parallel_adders
extra_adders st vacant_places =
    if st.current_delay_ms == 0 && ltb 0 (parallel_adders vacant_places)
    then parallel_adders vacant_places
    else 0

-- The delay after a failure, in milliseconds. `scale d r` is the product of `d` with the fraction
-- that the generator's output `r` stands for, cut to an integer.
unfoldable pub next_delay : (scale : ℕ → ℕ → ℕ) → Conservative → ℕ → ℕ
next_delay scale st roll =
    let grown =
      if st.current_delay_ms == 0
      then st.initial_delay_ms
      else st.current_delay_ms * st.delay_multiplier % size_mod in
    min k_max_backoff_ms (scale grown roll)

unfoldable pub back_off : (scale : ℕ → ℕ → ℕ) → Conservative → ℤ → ℕ → Conservative
unfolding next_delay
back_off scale st now roll =
    let delay = next_delay scale st roll in
    record st { current_delay_ms = delay; wait_until = add_time now (pos (delay * 1_000_000)) }

module _ {S W : Type 0} where
  -- What follows the joins.
  unfoldable pub conclude :
      (scale : ℕ → ℕ → ℕ) → RefillEnv S → Conservative → W × Bool → Conservative × W × Bool
  unfolding back_off
  conclude scale env st (w, is_added) =
      if is_added
      then (record st { current_delay_ms = 0 }, w, true)
      else (back_off scale st env.finished env.roll, w, false)

  -- conservative_strategy::refill
  unfoldable pub conservative_refill :
      (scale : ℕ → ℕ → ℕ)
      → RefillEnv S
      → ℕ
      → (ℕ → S → W → W)
      → Conservative
      → W
      → Conservative × W × Bool
  unfolding run_adders extra_adders conclude
  conservative_refill scale env vacant_places append_func st w =
      if ltb_ℤ env.started st.wait_until
      then (st, w, false)
      else conclude scale env st (
          run_adders (suc (extra_adders st vacant_places)) 0 env.new_session append_func (w, false))
