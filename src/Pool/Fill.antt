-- ===== src/Pool/Fill.antt =====
-- How a round fills the pool when all goes well, and what it does when nothing connects.
use stream_client.Common.{
  ℕ, ◌+◌, ◌<◌, ◌≡◌, refl, ◌∙◌, inl, inr, Bool, true, false, [], ◌∷◌, arith, ltb, if◌then◌else◌,
  lt→ltb, length-append, ltb_ℤ,
}
use stream_client.ErrorCode.{ErrorCode, value, thrown}
use stream_client.Strategy.Defs.{
  size_mod, run_adders, greedy_refill, Conservative, conservative_refill,
}
use stream_client.Strategy.Adders.{run_adders-size, run_adders-none, added-run_adders}
use stream_client.Strategy.Attempts.{
  attempts, attempts-pos, conclude-added, conservative_refill-ready, conservative_refill-none,
}
use stream_client.Pool.Defs.{Pool, act, act_all, return_session}
use stream_client.Pool.Size.{pool_size, swept-size, vacant_places_of_lem}
use stream_client.Pool.Watch.{
  RoundEnv, at_once, after_sleep, append_func, vacant_places_of, swept, swept_size, watch_round,
  watch_round-full, watch_round-refills,
}
use stream_client.Pool.Strategies.{greedy_strategy, conservative_pool_strategy, refill_greedily}

module _ {S : Type 0} (is_open : S → Bool) where
  -- A round that gets every lock, is alone, and whose attempts all connect.
  pub record IsSmooth (env : RoundEnv S) : Type 0 where
    pub got_lock : env.locked ≡ true
    pub alone : env.between ≡ []
    pub alone_too : (i : ℕ) → (env.appends i).others ≡ []
    pub got_locks : (i : ℕ) → (env.appends i).locked ≡ true
    pub given : ℕ → S
    pub connects : (i : ℕ) → env.refilling.new_session i ≡ value (given i)
    pub opens : (i : ℕ) → is_open (given i) ≡ true

  append_func-grows :
      (env : RoundEnv S) (smooth : IsSmooth env) (i : ℕ) (p : Pool S)
      → pool_size (append_func is_open env.appends i (smooth.given i) p) ≡ pool_size p + 1
  unfolding append_func return_session act_all act
  append_func-grows env smooth i p =
      rw (smooth.alone_too i, act_all, smooth.got_locks i, smooth.opens i)
        (omega (arith, length-append p.sesson_pool (((env.appends i).now, smooth.given i) ∷ [])))

  smooth_adders :
      (env : RoundEnv S) (smooth : IsSmooth env) (n : ℕ) (p : Pool S)
      → pool_size
          (run_adders n 0 env.refilling.new_session (append_func is_open env.appends) (p, false)).0
        ≡ pool_size p + n
  smooth_adders env smooth n p =
      run_adders-size pool_size (append_func is_open env.appends) env.refilling.new_session
        smooth.given smooth.connects (append_func-grows env smooth) n 0 (p, false)

  unlocked-size :
      (env : RoundEnv S) (p : Pool S)
      → IsSmooth env
      → pool_size (act_all env.between (swept env.now p)) ≡ swept_size env.now p
  unfolding act_all
  unlocked-size env p smooth = rw (smooth.alone, act_all) (swept-size env.now p)

  -- If no lock is missed, nobody else touches the pool, and every attempt connects to an open
  -- session, a round of the greedy strategy fills the pool to pool_max_size where the sweep leaves
  -- fewer sessions, and otherwise leaves what the sweep leaves.
  pub greedy_round-fills :
      (env : RoundEnv S) (p : Pool S)
      → IsSmooth env
      → let left = swept_size env.now p in
        pool_size (watch_round (greedy_strategy S) is_open env (tt, p)).1
        ≡ (if ltb left p.pool_max_size then p.pool_max_size else left)
  unfolding refill_greedily greedy_refill
  greedy_round-fills env p smooth = elim (vacant_places_of_lem p (swept_size env.now p)) [
    | inl (full, over) ↦
        rw (watch_round-full (greedy_strategy S) is_open env tt p smooth.got_lock full)
          (ground (arith, unlocked-size env p smooth))
    | inr (sum, vacant) ↦
        rw (watch_round-refills (greedy_strategy S) is_open env tt p smooth.got_lock vacant) (
          ground (
            arith,
            unlocked-size env p smooth,
            smooth_adders env smooth (vacant_places_of p (swept_size env.now p))
                (act_all env.between (swept env.now p)),
          ))
  ]

  -- If no lock is missed, nobody else touches the pool, and every attempt connects to an open
  -- session, and pool_max_size leaves room for 2 more in its word, a round of the conservative
  -- strategy whose wait is over adds to a pool with vacant places a third of them, rounded up, or
  -- one session where a delay stands; it takes the delay back and the next round follows at once.
  pub conservative_round-adds :
      (scale : ℕ → ℕ → ℕ) (env : RoundEnv S) (st : Conservative) (p : Pool S)
      → IsSmooth env
      → ltb_ℤ env.refilling.started st.wait_until ≡ false
      → p.pool_max_size + 2 < size_mod
      → let vacant = vacant_places_of p (swept_size env.now p) in
        0 < vacant
        → let r = watch_round (conservative_pool_strategy scale S) is_open env (st, p) in
          (pool_size r.1 ≡ swept_size env.now p + attempts st vacant)
          × (r.0 ≡ record st { current_delay_ms = 0 })
          × (r.2 ≡ at_once)
  conservative_round-adds scale env st p smooth ready h vacant =
      rw
        (
          watch_round-refills (conservative_pool_strategy scale S) is_open env st p smooth.got_lock
              vacant,
          result,
        )
        (
          omega (
            arith,
            unlocked-size env p smooth,
            smooth_adders env smooth n (act_all env.between (swept env.now p)),
          ),
          refl,
          refl,
        )
    where
      places : ℕ
      places = vacant_places_of p (swept_size env.now p)

      n : ℕ
      n = attempts st places

      start : Pool S × Bool
      start = (act_all env.between (swept env.now p), false)

      tries : Pool S × Bool
      tries = run_adders n 0 env.refilling.new_session (append_func is_open env.appends) start

      room : places + 2 < size_mod
      room = elim (vacant_places_of_lem p (swept_size env.now p)) [
        | inl (full, over) ↦ omega arith
        | inr (sum, some_left) ↦ omega arith
      ]

      added : tries.1 ≡ true
      added =
          added-run_adders (append_func is_open env.appends) env.refilling.new_session n 0 start (
            0,
            smooth.given 0,
            omega arith,
            omega (arith, attempts-pos st places vacant),
            smooth.connects 0,
          )

      result :
          conservative_refill scale env.refilling places
            (append_func is_open env.appends)
            st
            start.0
          ≡ (record st { current_delay_ms = 0 }, tries.0, true)
      result =
          conservative_refill-ready scale env.refilling places (append_func is_open env.appends) st
            start.0 vacant room ready
          ∙ conclude-added scale env.refilling st tries added

  -- Every attempt fails.
  abbrev pub NoneConnects : RoundEnv S → Type 0
  NoneConnects env = (i : ℕ) → (e : ErrorCode) × (env.refilling.new_session i ≡ thrown e)

  -- If a round of the greedy strategy has vacant places and none of its attempts connects, the next
  -- round follows at once, and the pool is as the sweep and the other threads leave it.
  pub greedy_round-spins :
      (env : RoundEnv S) (p : Pool S)
      → env.locked ≡ true
      → NoneConnects env
      → 0 < vacant_places_of p (swept_size env.now p)
      → watch_round (greedy_strategy S) is_open env (tt, p)
        ≡ (tt, act_all env.between (swept env.now p), at_once)
  unfolding refill_greedily greedy_refill
  greedy_round-spins env p locked none_connects vacant =
      rw (watch_round-refills (greedy_strategy S) is_open env tt p locked vacant) (
        rw (
          lt→ltb _ _ vacant,
          run_adders-none (append_func is_open env.appends) env.refilling.new_session none_connects
              (vacant_places_of p (swept_size env.now p)) 0
              (act_all env.between (swept env.now p), false),
        ))

  -- If none of the attempts of a locked round of the conservative strategy connects, and
  -- pool_max_size leaves room for 2 more in its word, it sleeps, and the pool is as the sweep and
  -- the other threads leave it.
  pub conservative_round-sleeps :
      (scale : ℕ → ℕ → ℕ) (env : RoundEnv S) (st : Conservative) (p : Pool S)
      → env.locked ≡ true
      → NoneConnects env
      → p.pool_max_size + 2 < size_mod
      → let r = watch_round (conservative_pool_strategy scale S) is_open env (st, p) in
        (r.1 ≡ act_all env.between (swept env.now p)) × (r.2 ≡ after_sleep)
  conservative_round-sleeps scale env st p locked none_connects h =
      elim (vacant_places_of_lem p (swept_size env.now p)) [
        | inl (full, over) ↦
            rw (watch_round-full (conservative_pool_strategy scale S) is_open env st p locked full)
              (refl, refl)
        | inr (sum, vacant) ↦
            let (same, fails) =
              conservative_refill-none scale env.refilling
                (vacant_places_of p (swept_size env.now p)) (append_func is_open env.appends) st
                (act_all env.between (swept env.now p)) vacant (omega arith) none_connects in
            rw
              (watch_round-refills (conservative_pool_strategy scale S) is_open env st p locked
                vacant)
              (same, rw fails)
      ]
