-- ===== src/Pool/Cycles.antt =====
-- The pool over many rounds of watch_pool_routine with the conservative strategy.
use stream_client.Common.{
  ℕ, ◌+◌, ◌≤◌, ◌<◌, ◌≡◌, refl, ap, ◌⊎◌, inl, inr, Bool, true, false, List, [], ◌∷◌, ◌++◌, arith,
  length, ℤ, ltb_ℤ, Bool-cases,
}
use stream_client.Clock.{IsNow, k_infinite_duration}
use stream_client.Strategy.Defs.{size_mod, Conservative}
use stream_client.Strategy.Attempts.{attempts-pos, attempts-le}
use stream_client.Pool.Defs.{Pool, act, act_all, erase_idle, return_session}
use stream_client.Pool.Sweep.{AllStamped, erase_idle-infinite}
use stream_client.Pool.Size.{pool_size, vacant_places_of_lem}
use stream_client.Pool.Watch.{
  RoundEnv, append_func, vacant_places_of, swept, swept_size, watch_round, watch_pool_routine,
  watch_round-full, watch_round-refills,
}
use stream_client.Pool.Strategies.{conservative_pool_strategy, conservative_refill-appends}
use stream_client.Pool.Fill.{IsSmooth, conservative_round-adds}

module _ {S : Type 0} (is_open : S → Bool) where
  -- A smooth round of a running watcher, by a clock, that starts once the wait until `w` is over.
  pub record IsSteady (w : ℤ) (env : RoundEnv S) : Type 0 where
    pub smooth : IsSmooth is_open env
    pub still : env.before ≡ []
    pub runs : env.running ≡ true
    pub ready : ltb_ℤ env.refilling.started w ≡ false
    pub clock : IsNow env.now
    pub stamps : (i : ℕ) → IsNow (env.appends i).now

  abbrev pub AllSteady : ℤ → List (RoundEnv S) → Type 0
  AllSteady w [] = Unit
  AllSteady w (env ∷ envs) = IsSteady w env × AllSteady w envs

  -- A pool of a given size without an idle timeout, whose times are readings of the clock.
  pub record IsLasting (size : ℕ) (p : Pool S) : Type 0 where
    pub same_size : p.pool_max_size ≡ size
    pub no_idle : p.idle_timeout ≡ k_infinite_duration
    pub stamped : AllStamped p.sesson_pool

  AllStamped-append : (xs ys : List (ℤ × S)) → AllStamped xs → AllStamped ys → AllStamped (xs ++ ys)
  AllStamped-append [] ys h k = k
  AllStamped-append (x ∷ xs) ys h k = (h.0, AllStamped-append xs ys h.1 k)

  swept-same :
      (size : ℕ) (now : ℤ) (p : Pool S)
      → IsNow now
      → IsLasting size p
      → (swept now p ≡ p) × (swept_size now p ≡ pool_size p)
  unfolding swept swept_size
  swept-same size now p n l = (ap (λ r. record p { sesson_pool = r.0 }) same, ap (λ r. r.1) same)
    where
      same : erase_idle now p.idle_timeout p.sesson_pool ≡ (p.sesson_pool, length p.sesson_pool)
      same = rw l.no_idle (erase_idle-infinite now p.sesson_pool n l.stamped)

  append_func-IsLasting :
      (w : ℤ) (size : ℕ) (env : RoundEnv S)
      → IsSteady w env
      → (i : ℕ) (s : S) (q : Pool S) → IsLasting size q
      → IsLasting size (append_func is_open env.appends i s q)
  unfolding append_func return_session act_all act
  append_func-IsLasting w size env steady i s q l =
      rw (steady.smooth.alone_too i, act_all, steady.smooth.got_locks i)
        (elim (Bool-cases (is_open s)) [
          | inl open_ ↦ rw open_ (record {
            same_size = l.same_size;
            no_idle = l.no_idle;
            stamped =
                AllStamped-append q.sesson_pool (((env.appends i).now, s) ∷ []) l.stamped
                  (steady.stamps i, tt);
          })
          | inr closed ↦ rw closed l
        ])

module _ {S : Type 0} (is_open : S → Bool) (scale : ℕ → ℕ → ℕ) where
  -- What a steady round does to a lasting pool that is not overfull.
  pub record Progresses (size : ℕ) (st : Conservative) (p : Pool S) (r : Conservative × Pool S)
      : Type 0 where
    pub lasts : IsLasting is_open size r.1
    pub same_wait : r.0.wait_until ≡ st.wait_until
    pub bounded : pool_size r.1 ≤ size
    pub more : (pool_size r.1 ≡ size) ⊎ (pool_size p < pool_size r.1)

  refilled-IsLasting :
      (size : ℕ) (env : RoundEnv S) (st : Conservative) (p : Pool S)
      → IsSteady is_open st.wait_until env
      → IsLasting is_open size p
      → size + 2 < size_mod
      → 0 < vacant_places_of p (swept_size env.now p)
      → IsLasting is_open size
          (watch_round (conservative_pool_strategy scale S) is_open env (st, p)).1
  unfolding act_all
  refilled-IsLasting size env st p steady l h vacant =
      rw
        (watch_round-refills (conservative_pool_strategy scale S) is_open env st p
          steady.smooth.got_lock vacant)
        (conservative_refill-appends scale (λ j q. IsLasting is_open size q) env.refilling places
          (append_func is_open env.appends) st (act_all env.between (swept env.now p)) vacant room
          (λ i j s q k. append_func-IsLasting is_open st.wait_until size env steady i s q k)
          (λ j q k. k)
          (rw (steady.smooth.alone, act_all, (swept-same is_open size env.now p steady.clock l).0)
            l))
    where
      places : ℕ
      places = vacant_places_of p (swept_size env.now p)

      room : places + 2 < size_mod
      room = elim (vacant_places_of_lem p (swept_size env.now p)) [
        | inl (full, over) ↦ omega arith
        | inr (sum, some_left) ↦ omega (arith, l.same_size)
      ]

  round-Progresses :
      (size : ℕ) (env : RoundEnv S) (st : Conservative) (p : Pool S)
      → IsSteady is_open st.wait_until env
      → IsLasting is_open size p
      → size + 2 < size_mod
      → pool_size p ≤ size
      → let r = watch_round (conservative_pool_strategy scale S) is_open env (st, p) in
        Progresses size st p (r.0, r.1)
  unfolding act_all
  round-Progresses size env st p steady l h le =
      let (same, counted) = swept-same is_open size env.now p steady.clock l in
      elim (vacant_places_of_lem p (swept_size env.now p)) [
        | inl (full, over) ↦
            rw
              (watch_round-full (conservative_pool_strategy scale S) is_open env st p
                steady.smooth.got_lock full)
              (rw (steady.smooth.alone, act_all, same)
                (record {
                  lasts = l;
                  same_wait = refl;
                  bounded = le;
                  more = inl (omega (arith, l.same_size, counted));
                }))
        | inr (sum, vacant) ↦
            let (grown, state, soon) =
              conservative_round-adds is_open scale env st p steady.smooth steady.ready
                (omega (arith, l.same_size)) vacant in
            record {
              lasts = refilled-IsLasting size env st p steady l h vacant;
              same_wait = ap (λ c. c.wait_until) state;
              bounded = omega (
                arith,
                l.same_size,
                counted,
                grown,
                sum,
                attempts-le st (vacant_places_of p (swept_size env.now p)),
              );
              more = inr (
                  omega (
                    arith,
                    counted,
                    grown,
                    attempts-pos st (vacant_places_of p (swept_size env.now p)) vacant,
                  ));
            }
      ]

  -- A pool of some size that leaves room for 2 more in its word, which is not overfull and has no
  -- idle timeout, is full after as many rounds of the watcher with the conservative strategy as
  -- sessions are missing, or more, if in all of them every lock is got, nobody else touches the
  -- pool, every attempt connects to an open session, and the wait of the strategy is over.
  pub conservative-fills :
      (size : ℕ) (envs : List (RoundEnv S)) (st : Conservative) (p : Pool S)
      → AllSteady is_open st.wait_until envs
      → IsLasting is_open size p
      → size + 2 < size_mod
      → pool_size p ≤ size
      → size ≤ pool_size p + length envs
      → let r = watch_pool_routine (conservative_pool_strategy scale S) is_open envs (st, p) in
        pool_size r.1 ≡ size
  unfolding watch_pool_routine act_all
  conservative-fills size [] st p steady l h le enough = omega arith
  conservative-fills size (env ∷ envs) st p (now, later) l h le enough =
      let next = watch_round (conservative_pool_strategy scale S) is_open env (st, p) in
      let done = round-Progresses size env st p now l h le in
      rw (now.still, act_all, now.runs)
        (conservative-fills size envs next.0 next.1 (rw done.same_wait later) done.lasts h
          done.bounded (elim done.more [ inl full ↦ omega arith | inr more ↦ omega arith ]))
