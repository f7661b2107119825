-- ===== src/Pool/Order.antt =====
-- What the watcher of impl/connection_pool.ipp leaves of the sessions, over any number of rounds.
use stream_client.Common.{
  ℕ, ◌+◌, ◌<◌, ◌≡◌, refl, ◌∙◌, Bool, true, inl, inr, some, List, [], ◌∷◌, ◌++◌, map, arith,
  Bool-cases, ℤ, lt→ltb,
}
use mathlib.Core.List.{Sublist, map-append, append_assoc, append-nil}
use mathlib.Core.List.Sublist
use stream_client.Strategy.Defs.{size_mod}
use stream_client.Pool.Defs.{
  Pool, Action, takes, returns, sweeps, act, act_all, pop_front, return_session,
}
use stream_client.Pool.Fifo.{sessions}
use stream_client.Pool.Size.{vacant_places_of_lem}
use stream_client.Pool.Refines.{swept-Sublist}
use stream_client.Pool.Watch.{
  PoolStrategy, RoundEnv, AppendEnv, append_func, vacant_places_of, swept, swept_size, watch_round,
  watch_pool_routine,
}

module _ {S : Type 0} (is_open : S → Bool) where
  abbrev pub AreOpen : List S → Type 0
  AreOpen [] = Unit
  AreOpen (s ∷ ss) = (is_open s ≡ true) × AreOpen ss

  -- Other threads that put in open sessions only.
  abbrev pub BringOpen : List (Action S) → Type 0
  BringOpen [] = Unit
  BringOpen (takes ∷ as_) = BringOpen as_
  BringOpen (returns now s ∷ as_) = (is_open s ≡ true) × BringOpen as_
  BringOpen (sweeps now ∷ as_) = BringOpen as_

  -- From one pool to another: the sessions of the second are some of the first's, in their order,
  -- and behind them some that were open when they came.
  pub record InOrder (p q : Pool S) : Type 0 where
    pub same_max_size : q.pool_max_size ≡ p.pool_max_size
    pub came : List S
    pub were_open : AreOpen came
    pub in_order : Sublist (sessions q) (sessions p ++ came)

  AreOpen-append : (xs ys : List S) → AreOpen xs → AreOpen ys → AreOpen (xs ++ ys)
  AreOpen-append [] ys h k = k
  AreOpen-append (x ∷ xs) ys h k = (h.0, AreOpen-append xs ys h.1 k)

  shrinks :
      (p q : Pool S)
      → q.pool_max_size ≡ p.pool_max_size
      → Sublist (sessions q) (sessions p)
      → InOrder p q
  shrinks p q e h = record {
    same_max_size = e;
    came = [];
    were_open = tt;
    in_order = rw append-nil h;
  }

  stays : (p : Pool S) → InOrder p p
  stays p = shrinks p p refl (Sublist.refl (sessions p))

  InOrder-trans : (p q r : Pool S) → InOrder p q → InOrder q r → InOrder p r
  InOrder-trans p q r h k = record {
    same_max_size = k.same_max_size ∙ h.same_max_size;
    came = h.came ++ k.came;
    were_open = AreOpen-append h.came k.came h.were_open k.were_open;
    in_order = Sublist.trans k.in_order (
        rw (append_assoc (sessions p) h.came k.came) at
          (Sublist.append h.in_order (Sublist.refl k.came)));
  }

  grows :
      (p q : Pool S) (s : S)
      → q.pool_max_size ≡ p.pool_max_size
      → is_open s ≡ true
      → sessions q ≡ sessions p ++ s ∷ []
      → InOrder p q
  grows p q s e h k = record {
    same_max_size = e;
    came = s ∷ [];
    were_open = (h, tt);
    in_order = rw k (Sublist.refl (sessions p ++ s ∷ []));
  }

  pop_front-Sublist :
      (xs : List (ℤ × S)) → Sublist (map (λ e. e.1) (pop_front xs)) (map (λ e. e.1) xs)
  unfolding pop_front
  pop_front-Sublist [] = Sublist.refl []
  pop_front-Sublist (x ∷ xs) = Sublist.cons x.1 (Sublist.refl (map (λ e. e.1) xs))

  act_all-InOrder : (as_ : List (Action S)) (p : Pool S) → BringOpen as_ → InOrder p (act_all as_ p)
  unfolding act_all act swept
  act_all-InOrder [] p h = stays p
  act_all-InOrder (takes ∷ as_) p h =
      let q = act takes p in
      InOrder-trans p q (act_all as_ q) (shrinks p q refl (pop_front-Sublist p.sesson_pool))
        (act_all-InOrder as_ q h)
  act_all-InOrder (returns now s ∷ as_) p h =
      let q = act (returns now s) p in
      InOrder-trans p q (act_all as_ q)
        (grows p q s refl h.0 (map-append (λ (e : ℤ × S). e.1) p.sesson_pool ((now, s) ∷ [])))
        (act_all-InOrder as_ q h.1)
  act_all-InOrder (sweeps now ∷ as_) p h =
      let q = act (sweeps now) p in
      InOrder-trans p q (act_all as_ q) (shrinks p q refl (swept-Sublist now p))
        (act_all-InOrder as_ q h)

  return_session-InOrder :
      (s : S) (locked : Bool) (now : ℤ) (p : Pool S)
      → InOrder p (return_session is_open (some s) locked now p)
  unfolding return_session act_all
  return_session-InOrder s locked now p = elim (Bool-cases (is_open s)) [
    | inr closed ↦ rw (closed, return_session) (stays p)
    | inl opened ↦ elim (Bool-cases locked) [
      | inr busy ↦ rw (opened, busy, return_session) (stays p)
      | inl got ↦
          rw (opened, got, return_session) (act_all-InOrder (returns now s ∷ []) p (opened, tt))
    ]
  ]

  append_func-InOrder :
      (appends : ℕ → AppendEnv S)
      → ((i : ℕ) → BringOpen (appends i).others)
      → (i : ℕ) (s : S) (p : Pool S) → InOrder p (append_func is_open appends i s p)
  unfolding append_func
  append_func-InOrder appends h i s p =
      let q = act_all (appends i).others p in
      InOrder-trans p q (return_session is_open (some s) (appends i).locked (appends i).now q)
        (act_all-InOrder (appends i).others p (h i))
        (return_session-InOrder s (appends i).locked (appends i).now q)

module _ {S : Type 0} (strategy : PoolStrategy S) (is_open : S → Bool) where
  -- A round in which other threads put in open sessions only.
  abbrev pub BringsOpen : RoundEnv S → Type 0
  BringsOpen env =
      BringOpen is_open env.before
      × BringOpen is_open env.between
      × ((i : ℕ) → BringOpen is_open (env.appends i).others)

  abbrev pub AllBringOpen : List (RoundEnv S) → Type 0
  AllBringOpen [] = Unit
  AllBringOpen (env ∷ envs) = BringsOpen env × AllBringOpen envs

  watch_round-InOrder :
      (env : RoundEnv S) (st : strategy.State) (p : Pool S)
      → p.pool_max_size + 2 < size_mod
      → BringsOpen env
      → InOrder is_open p (watch_round strategy is_open env (st, p)).1
  unfolding watch_round
  watch_round-InOrder env st p h open_ =
      let left = swept env.now p in
      let free = act_all env.between left in
      let swept_ : InOrder is_open p left =
        unfold swept in shrinks is_open p left refl (swept-Sublist env.now p) in
      let before : InOrder is_open p free =
        InOrder-trans is_open p left free swept_
          (act_all-InOrder is_open env.between left open_.1) in
      elim (Bool-cases env.locked) [
        | inr busy ↦ rw busy (stays is_open p)
        | inl locked ↦ elim (vacant_places_of_lem p (swept_size env.now p)) [
          | inl (full, over) ↦ rw (locked, full) before
          | inr (sum, some_left) ↦
              rw (locked, lt→ltb _ _ some_left)
                (strategy.refill_lem (λ j q. InOrder is_open p q) env.refilling
                  (vacant_places_of p (swept_size env.now p)) (append_func is_open env.appends) st
                  free some_left (omega arith)
                  (λ i j s q run.
                    InOrder-trans is_open p q (append_func is_open env.appends i s q) run
                      (append_func-InOrder is_open env.appends open_.2 i s q))
                  (λ j q run. run) before)
        ]
      ]

  -- If other threads bring open sessions only and pool_max_size leaves room for 2 more in its word,
  -- then after any rounds of watch_pool_routine under any strategy pool_max_size is the same, and
  -- the sessions in the pool are some of those that were there, in their order, and behind them
  -- some that were open when they came.
  pub watch_pool_routine-InOrder :
      (envs : List (RoundEnv S)) (st : strategy.State) (p : Pool S)
      → p.pool_max_size + 2 < size_mod
      → AllBringOpen envs
      → InOrder is_open p (watch_pool_routine strategy is_open envs (st, p)).1
  unfolding watch_pool_routine
  watch_pool_routine-InOrder [] st p h open_ = stays is_open p
  watch_pool_routine-InOrder (env ∷ envs) st p h open_ =
      let found = act_all env.before p in
      let next = watch_round strategy is_open env (st, found) in
      let others = act_all-InOrder is_open env.before p open_.0.0 in
      let run =
        InOrder-trans is_open p found next.1 others
          (watch_round-InOrder env st found (omega (arith, others.same_max_size)) open_.0) in
      elim (Bool-cases env.running) [
        | inr stopped ↦ rw stopped others
        | inl running ↦ rw running (
            InOrder-trans is_open p next.1
              (watch_pool_routine strategy is_open envs (next.0, next.1)).1 run
              (watch_pool_routine-InOrder envs next.0 next.1 (omega (arith, run.same_max_size))
                open_.1))
      ]
