-- ===== src/Pool/Watch.antt =====
-- watch_pool_routine of impl/connection_pool.ipp, over any reconnection strategy.
use stream_client.Common.{
  ℕ, ◌+◌, ◌-◌, ◌<◌, ◌≡◌, Bool, true, not, some, List, [], ◌∷◌, ltb, if◌then◌else◌, lt→ltb, ℤ,
}
use stream_client.Strategy.Defs.{RefillEnv, size_mod}
use stream_client.Pool.Defs.{Pool, Action, act_all, erase_idle, return_session}

-- Law of a strategy: a property that each append moves on by one, and that may be moved on for
-- nothing, is moved on `vacant_places` times at most.
abbrev pub AppendsAtMost :
    {S State : Type 0}
    → (RefillEnv S → ℕ → (ℕ → S → Pool S → Pool S) → State → Pool S → State × Pool S × Bool)
    → Type 1
AppendsAtMost {S} {State} refill =
    (P : ℕ → Pool S → Type 0) (env : RefillEnv S) (vacant_places : ℕ)
    (append_func : ℕ → S → Pool S → Pool S) (st : State) (p : Pool S)
    → 0 < vacant_places
    → vacant_places + 2 < size_mod
    → ((i j : ℕ) (s : S) (q : Pool S) → P j q → P (j + 1) (append_func i s q))
    → ((j : ℕ) (q : Pool S) → P j q → P (j + 1) q)
    → P 0 p
    → P vacant_places (refill env vacant_places append_func st p).1

-- The class pool_strategy: what its state is, and refill, whose Boolean says "need more".
pub record PoolStrategy (S : Type 0) : Type 1 where
  pub State : Type 0
  pub refill : RefillEnv S → ℕ → (ℕ → S → Pool S → Pool S) → State → Pool S → State × Pool S × Bool
  pub refill_lem : AppendsAtMost refill

-- What surrounds one run of append_func.
pub record AppendEnv (S : Type 0) : Type 0 where
  pub others : List (Action S)
  pub locked : Bool
  pub now : ℤ

-- What surrounds one round of the loop.
pub record RoundEnv (S : Type 0) : Type 0 where
  pub before : List (Action S)  -- between the rounds, in the sleep too
  pub running : Bool  -- the load of watch_pool_
  pub locked : Bool
  pub now : ℤ
  pub between : List (Action S)  -- between unlock and refill
  pub refilling : RefillEnv S
  pub appends : ℕ → AppendEnv S

-- How a round ends: by `continue`, or by the sleep of 50 ms.
pub data Pause : Type 0 where
  at_once after_sleep : Pause

module _ {S : Type 0} where
  unfoldable pub vacant_places_of : Pool S → ℕ → ℕ
  vacant_places_of p pool_current_size =
      if ltb pool_current_size p.pool_max_size then p.pool_max_size - pool_current_size else 0

  unfoldable pub append_func : (is_open : S → Bool) → (ℕ → AppendEnv S) → ℕ → S → Pool S → Pool S
  unfolding return_session act_all
  append_func is_open appends i s p =
      return_session is_open (some s) (appends i).locked (appends i).now
        (act_all (appends i).others p)

  -- The pool after the sweep, unlocked again.
  unfoldable pub swept : ℤ → Pool S → Pool S
  unfolding erase_idle
  swept now p = record p { sesson_pool = (erase_idle now p.idle_timeout p.sesson_pool).0 }

  unfoldable pub swept_size : ℤ → Pool S → ℕ
  unfolding erase_idle
  swept_size now p = (erase_idle now p.idle_timeout p.sesson_pool).1

module _ {S : Type 0} (strategy : PoolStrategy S) (is_open : S → Bool) where
  unfoldable pub watch_round :
      RoundEnv S → strategy.State × Pool S → strategy.State × Pool S × Pause
  unfolding swept swept_size vacant_places_of append_func
  watch_round env (st, p) =
      let vacant = vacant_places_of p (swept_size env.now p) in
      let refilled =
        strategy.refill env.refilling vacant (append_func is_open env.appends) st
          (act_all env.between (swept env.now p)) in
      if not env.locked
      then (st, p, at_once)
      else if ltb 0 vacant
      then (refilled.0, refilled.1, (if refilled.2 then at_once else after_sleep))
      else (st, act_all env.between (swept env.now p), after_sleep)

  -- The loop, over the rounds that the destructor lets it run.
  unfoldable pub watch_pool_routine :
      List (RoundEnv S) → strategy.State × Pool S → strategy.State × Pool S
  unfolding watch_round
  watch_pool_routine [] (st, p) = (st, p)
  watch_pool_routine (env ∷ envs) (st, p) =
      let found = act_all env.before p in
      let next = watch_round env (st, found) in
      let rest = watch_pool_routine envs (next.0, next.1) in
      if env.running then rest else (st, found)

  -- A locked round with no vacant place sleeps.
  pub watch_round-full :
      (env : RoundEnv S) (st : strategy.State) (p : Pool S)
      → env.locked ≡ true
      → vacant_places_of p (swept_size env.now p) ≡ 0
      → watch_round env (st, p) ≡ (st, act_all env.between (swept env.now p), after_sleep)
  unfolding watch_round
  watch_round-full env st p locked full = rw (locked, full)

  -- A locked round with vacant places hands them to the strategy.
  pub watch_round-refills :
      (env : RoundEnv S) (st : strategy.State) (p : Pool S)
      → env.locked ≡ true
      → 0 < vacant_places_of p (swept_size env.now p)
      → let refilled =
          strategy.refill env.refilling
            (vacant_places_of p (swept_size env.now p))
            (append_func is_open env.appends)
            st
            (act_all env.between (swept env.now p)) in
        watch_round env (st, p)
        ≡ (refilled.0, refilled.1, (if refilled.2 then at_once else after_sleep))
  unfolding watch_round
  watch_round-refills env st p locked vacant = rw (locked, lt→ltb _ _ vacant)
