-- ===== src/Pool/Size.antt =====
-- How many sessions a pool holds after a round of watch_pool_routine.
use stream_client.Common.{
  ℕ, ◌+◌, ◌*◌, ◌≤◌, ◌<◌, ◌≡◌, sym, ap, ◌∙◌, ◌⊎◌, inl, inr, Bool, Option, none, some, List, [], ◌∷◌,
  arith, lt→ltb, Bool-cases, length, length-append, length-keep-le, ℤ,
}
use stream_client.Strategy.Defs.{size_mod, RefillEnv}
use stream_client.Pool.Defs.{
  Pool, Action, takes, returns, sweeps, act, act_all, pop_front, erase_idle, return_session,
}
use stream_client.Pool.Sweep.{erase_idle_lem, is_fresh}
use stream_client.Pool.Watch.{
  PoolStrategy, AppendEnv, RoundEnv, append_func, vacant_places_of, swept, swept_size, watch_round,
}

module _ {S : Type 0} where
  abbrev pub pool_size : Pool S → ℕ
  pool_size p = length p.sesson_pool

  -- How many sessions come back in these actions.
  abbrev pub returned : List (Action S) → ℕ
  returned [] = 0
  returned (takes ∷ acts) = returned acts
  returned (returns now s ∷ acts) = returned acts + 1
  returned (sweeps now ∷ acts) = returned acts

  length-pop_front : (xs : List (ℤ × S)) → length (pop_front xs) ≤ length xs
  unfolding pop_front
  length-pop_front [] = omega arith
  length-pop_front (x ∷ xs) = omega arith

  length-erase_idle :
      (now idle : ℤ) (xs : List (ℤ × S)) → length (erase_idle now idle xs).0 ≤ length xs
  length-erase_idle now idle xs =
      rw (erase_idle_lem now idle xs) (length-keep-le (is_fresh now idle) xs)

  act_all-size-le :
      (acts : List (Action S)) (p : Pool S)
      → pool_size (act_all acts p) ≤ pool_size p + returned acts
  unfolding act_all act
  act_all-size-le [] p = omega arith
  act_all-size-le (takes ∷ acts) p =
      omega (arith, act_all-size-le acts (act takes p), length-pop_front p.sesson_pool)
  act_all-size-le (returns now s ∷ acts) p = omega (
    arith,
    act_all-size-le acts (act (returns now s) p),
    length-append p.sesson_pool ((now, s) ∷ []),
  )
  act_all-size-le (sweeps now ∷ acts) p = omega (
    arith,
    act_all-size-le acts (act (sweeps now) p),
    length-erase_idle now p.idle_timeout p.sesson_pool,
  )

  return_session-size-le :
      (is_open : S → Bool) (session : Option S) (locked : Bool) (now : ℤ) (p : Pool S)
      → pool_size (return_session is_open session locked now p) ≤ pool_size p + 1
  unfolding return_session act
  return_session-size-le is_open none locked now p = omega arith
  return_session-size-le is_open (some s) locked now p =
      ground (arith, length-append p.sesson_pool ((now, s) ∷ []))

  append_func-size-le :
      (is_open : S → Bool) (appends : ℕ → AppendEnv S) (i : ℕ) (s : S) (p : Pool S)
      → pool_size (append_func is_open appends i s p)
        ≤ pool_size p + returned (appends i).others + 1
  unfolding append_func
  append_func-size-le is_open appends i s p = omega (
    arith,
    return_session-size-le is_open (some s) (appends i).locked (appends i).now
        (act_all (appends i).others p),
    act_all-size-le (appends i).others p,
  )

  -- The sweep counts what it leaves.
  pub swept-size : (now : ℤ) (p : Pool S) → pool_size (swept now p) ≡ swept_size now p
  unfolding swept swept_size
  swept-size now p =
      let e = erase_idle_lem now p.idle_timeout p.sesson_pool in
      ap (λ r. length r.0) e ∙ sym (ap (λ r. r.1) e)

  swept-size-le : (now : ℤ) (p : Pool S) → pool_size (swept now p) ≤ pool_size p
  unfolding swept
  swept-size-le now p = length-erase_idle now p.idle_timeout p.sesson_pool

  -- The places that a round fills up, and no more.
  pub vacant_places_of_lem :
      (p : Pool S) (size : ℕ)
      → ((vacant_places_of p size ≡ 0) × (p.pool_max_size ≤ size))
        ⊎ ((size + vacant_places_of p size ≡ p.pool_max_size) × (0 < vacant_places_of p size))
  unfolding vacant_places_of
  vacant_places_of_lem p size = ground arith

module _ {S : Type 0} (strategy : PoolStrategy S) (is_open : S → Bool) where
  -- A refill adds `vacant` sessions at most, and what others return before each.
  refill-size :
      (b : ℕ) (env : RefillEnv S) (vacant : ℕ) (appends : ℕ → AppendEnv S) (st : strategy.State)
      (p : Pool S)
      → ((i : ℕ) → returned (appends i).others ≤ b)
      → 0 < vacant
      → vacant + 2 < size_mod
      → pool_size (strategy.refill env vacant (append_func is_open appends) st p).1
        ≤ pool_size p + vacant * (b + 1)
  refill-size b env vacant appends st p few h k =
      strategy.refill_lem (λ j q. pool_size q ≤ pool_size p + j * (b + 1)) env vacant
        (append_func is_open appends) st p h k
        (λ i j s q le. omega (arith, append_func-size-le is_open appends i s q, few i))
        (λ j q le. omega arith) (omega arith)

  -- If other threads return at most b sessions before each append of a refill, and pool_max_size
  -- leaves room for 2 more in its word, then a round of the watcher under any strategy leaves at
  -- most pool_max_size sessions and, on top, those that others return between the sweep and the
  -- refill and b for each vacant place; or no more than there were and those that others return
  -- between.
  pub watch_round-size :
      (b : ℕ) (env : RoundEnv S) (st : strategy.State) (p : Pool S)
      → p.pool_max_size + 2 < size_mod
      → ((i : ℕ) → returned (env.appends i).others ≤ b)
      → let vacant = vacant_places_of p (swept_size env.now p) in
        let size = pool_size (watch_round strategy is_open env (st, p)).1 in
        (size ≤ p.pool_max_size + returned env.between + vacant * b)
        ⊎ (size ≤ pool_size p + returned env.between)
  unfolding watch_round
  watch_round-size b env st p h few = elim (Bool-cases env.locked) [
    | inr busy ↦ rw busy (inr (omega arith))
    | inl locked ↦ elim (vacant_places_of_lem p (swept_size env.now p)) [
      | inl (full, over) ↦ rw (locked, full) (inr (omega (arith, settled)))
      | inr (sum, some_left) ↦
          rw (locked, lt→ltb _ _ some_left)
            (inl (
              omega (
                arith,
                settled,
                swept-size env.now p,
                refill-size b env.refilling (vacant_places_of p (swept_size env.now p)) env.appends
                    st (act_all env.between (swept env.now p)) few some_left (omega arith),
              )))
    ]
  ]
    where
      settled :
          (pool_size (act_all env.between (swept env.now p))
            ≤ pool_size (swept env.now p) + returned env.between)
          × (pool_size (swept env.now p) ≤ pool_size p)
      settled = (act_all-size-le env.between (swept env.now p), swept-size-le env.now p)
