-- ===== src/Strategy/Delay.antt =====
-- conservative_strategy: the ranges of its fields.
use stream_client.Common.{
  ℕ, ◌*◌, ◌^◌, ◌≤◌, ◌<◌, min, ◌≡◌, inl, inr, Bool, some, arith, Bool-cases, ltb_ℤ,
}
use native.Mathlib.Nat.{mod-eq_of_lt}
use stream_client.Strategy.Defs.{
  RefillEnv, size_mod, Conservative, conservative_strategy, k_max_backoff_ms, next_delay, back_off,
  conclude, conservative_refill,
}
use stream_client.Strategy.Backoff.{next_delay-le}

-- What holds of the fields at all times: the delay is bounded, and so small that multiplying it by
-- an `unsigned` stays within unsigned long.
pub record IsSane (st : Conservative) : Type 0 where
  pub bounded : st.current_delay_ms ≤ k_max_backoff_ms
  pub positive : 0 < st.delay_multiplier
  pub narrow : st.delay_multiplier < 2 ^ 32

pub conservative_strategy-IsSane :
    (first_delay_ms delay_multiplier : ℕ) {st : Conservative}
    → delay_multiplier < 2 ^ 32
    → conservative_strategy first_delay_ms delay_multiplier ≡ some st
    → IsSane st
unfolding conservative_strategy
conservative_strategy-IsSane d m h e = ground arith

product-lt : (a b : ℕ) → a ≤ k_max_backoff_ms → b < 2 ^ 32 → a * b < size_mod
product-lt a b h k = grind arith

-- In a sane state with a delay, the product of the delay and the multiplier does not wrap: the next
-- delay is the fraction of the exact product, within 10 seconds.
pub next_delay-exact :
    (scale : ℕ → ℕ → ℕ) (st : Conservative) (roll : ℕ)
    → IsSane st
    → 0 < st.current_delay_ms
    → next_delay scale st roll
      ≡ min k_max_backoff_ms (scale (st.current_delay_ms * st.delay_multiplier) roll)
unfolding next_delay
next_delay-exact scale st roll v h =
    rw (mod-eq_of_lt (product-lt st.current_delay_ms st.delay_multiplier v.bounded v.narrow))
      (ground arith)

conclude-IsSane :
    {S W : Type 0} (scale : ℕ → ℕ → ℕ) (env : RefillEnv S) (st : Conservative) (acc : W × Bool)
    → IsSane st
    → IsSane (conclude scale env st acc).0
unfolding conclude back_off
conclude-IsSane scale env st acc v = ground (arith, next_delay-le scale st env.roll)

-- Every call of the conservative strategy's refill keeps its state sane: the delay stays within 10
-- seconds, and the multiplier at least 1 and a 32-bit word.
pub conservative_refill-IsSane :
    {S W : Type 0} (scale : ℕ → ℕ → ℕ) (env : RefillEnv S) (n : ℕ) (append_func : ℕ → S → W → W)
    (st : Conservative) (w : W)
    → IsSane st
    → IsSane (conservative_refill scale env n append_func st w).0
unfolding conservative_refill
conservative_refill-IsSane scale env n append_func st w v =
    elim (Bool-cases (ltb_ℤ env.started st.wait_until)) [
      | inl e ↦ rw e v
      | inr e ↦ rw e (conclude-IsSane scale env st _ v)
    ]
