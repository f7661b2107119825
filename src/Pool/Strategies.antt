-- ===== src/Pool/Strategies.antt =====
-- The two strategies as instances of the class pool_strategy, with its law.
use stream_client.Common.{ℕ, ◌-◌, ◌≡◌, inl, inr, Bool, false, arith, Bool-cases, ltb_ℤ}
use stream_client.Strategy.Defs.{
  RefillEnv, Conservative, greedy_refill, conservative_refill, run_adders, conclude,
}
use stream_client.Strategy.Adders.{run_adders-keeps, advance}
use stream_client.Strategy.Greedy.{greedy_refill-keeps}
use stream_client.Strategy.Attempts.{conservative_refill_lem, attempts, attempts-le}
use stream_client.Pool.Defs.{Pool}
use stream_client.Pool.Watch.{PoolStrategy, AppendsAtMost}

-- greedy_strategy has no fields.
unfoldable pub refill_greedily :
    {S : Type 0}
    → RefillEnv S
    → ℕ
    → (ℕ → S → Pool S → Pool S)
    → Unit {0}
    → Pool S
    → Unit {0} × Pool S × Bool
refill_greedily env n append_func st p = let r = greedy_refill env n append_func p in (tt, r.0, r.1)

pub refill_greedily-appends : {S : Type 0} → AppendsAtMost (refill_greedily {S = S})
unfolding refill_greedily
refill_greedily-appends P env n append_func st p h k append step start =
    greedy_refill-keeps P env append_func append step n p start

abbrev pub greedy_strategy : (S : Type 0) → PoolStrategy S
greedy_strategy S = record {
  State = Unit {0};
  refill = refill_greedily;
  refill_lem = refill_greedily-appends;
}

pub conclude-world :
    {S W : Type 0} (scale : ℕ → ℕ → ℕ) (env : RefillEnv S) (st : Conservative) (acc : W × Bool)
    → (conclude scale env st acc).1 ≡ acc.0
unfolding conclude
conclude-world scale env st acc = ground arith

module _ (scale : ℕ → ℕ → ℕ) where
  pub conservative_refill-appends :
      {S : Type 0} → AppendsAtMost (conservative_refill {S = S} {W = Pool S} scale)
  conservative_refill-appends {S} P env n append_func st p h k append step start =
      rw (conservative_refill_lem scale env n append_func st p h k)
        (elim (Bool-cases (ltb_ℤ env.started st.wait_until)) [
          | inl waits ↦ rw waits (advance P step n 0 n p (omega arith) start)
          | inr ready ↦ rw (ready, conclude-world scale env st tries) within
        ])
    where
      tries : Pool S × Bool
      tries = run_adders (attempts st n) 0 env.new_session append_func (p, false)

      within : P n tries.0
      within =
          advance P step (n - attempts st n) (attempts st n) n tries.0
            (omega (arith, attempts-le st n h))
            (run_adders-keeps P append_func append step env.new_session (attempts st n) 0 0
              (attempts st n) (p, false) (omega arith) start)

  abbrev pub conservative_pool_strategy : (S : Type 0) → PoolStrategy S
  conservative_pool_strategy S = record {
    State = Conservative;
    refill = conservative_refill scale;
    refill_lem = conservative_refill-appends;
  }
