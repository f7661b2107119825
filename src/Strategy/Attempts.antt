-- ===== src/Strategy/Attempts.antt =====
-- conservative_strategy of impl/pool_strategy.ipp: how many attempts a call makes, and what comes of
-- them.
use stream_client.Common.{
  ℕ, suc, ◌+◌, ◌/◌, ◌≤◌, ◌<◌, ◌≡◌, sym, ◌∙◌, ◌↔◌, inl, inr, Bool, true, false, arith, ◌==◌,
  if◌then◌else◌, ltb_ℤ,
}
use stream_client.ErrorCode.{ErrorCode, thrown}
use stream_client.Strategy.Defs.{
  RefillEnv, run_adders, size_mod, Conservative, extra_adders, conclude, conservative_refill,
}
use stream_client.Strategy.Adders.{
  SomeConnects, run_adders-added, added-run_adders, run_adders-none,
}

-- The attempts of one call: a third of the vacant places, rounded up, or one after a failure.
abbrev pub attempts : Conservative → ℕ → ℕ
attempts st vacant_places = if st.current_delay_ms == 0 then (vacant_places + 2) / 3 else 1

-- For any vacancy that size_t can hold without wrapping, the threads and the call itself make
-- ⌈vacant / 3⌉ attempts if there was no failure before, and one otherwise.
pub extra_adders-attempts :
    (st : Conservative) (vacant_places : ℕ)
    → 0 < vacant_places
    → vacant_places + 2 < size_mod
    → suc (extra_adders st vacant_places) ≡ attempts st vacant_places
unfolding extra_adders
extra_adders-attempts st vacant_places h k = ground arith

pub attempts-le :
    (st : Conservative) (vacant_places : ℕ)
    → 0 < vacant_places
    → attempts st vacant_places ≤ vacant_places
attempts-le st vacant_places h = ground arith

pub attempts-pos :
    (st : Conservative) (vacant_places : ℕ) → 0 < vacant_places → 0 < attempts st vacant_places
attempts-pos st vacant_places h = ground arith

pick {ℓ} :
    {W : Type ℓ} (b : Bool) (x : Conservative × W) (y : Conservative × W × Bool)
    → (if b then (x.0, x.1, false) else y).2 ≡ true
    → (b ≡ false) × (y.2 ≡ true)
pick b x y h = ground arith

module _ {S W : Type 0} (scale : ℕ → ℕ → ℕ) where
  -- Nothing is attempted before the wait is over, and ⌈vacant / 3⌉ or one attempts after it.
  pub conservative_refill_lem :
      (env : RefillEnv S) (vacant_places : ℕ) (append_func : ℕ → S → W → W) (st : Conservative)
      (w : W)
      → 0 < vacant_places
      → vacant_places + 2 < size_mod
      → conservative_refill scale env vacant_places append_func st w ≡ (
          if ltb_ℤ env.started st.wait_until
          then (st, w, false)
          else conclude scale env st
              (run_adders (attempts st vacant_places) 0 env.new_session append_func (w, false)))
  unfolding conservative_refill
  conservative_refill_lem env n append_func st w h k = rw (extra_adders-attempts st n h k)

  conclude-result :
      (env : RefillEnv S) (st : Conservative) (acc : W × Bool)
      → (conclude scale env st acc).2 ≡ acc.1
  unfolding conclude
  conclude-result env st acc = ground arith

  -- The conservative strategy's refill, for some vacant places that leave room for 2 more in their
  -- word, is true exactly when its wait is over and one of the attempts connects: a third of the
  -- vacant places, rounded up, or one where a delay stands.
  pub conservative_refill-result :
      (env : RefillEnv S) (vacant_places : ℕ) (append_func : ℕ → S → W → W) (st : Conservative)
      (w : W)
      → 0 < vacant_places
      → vacant_places + 2 < size_mod
      → ((conservative_refill scale env vacant_places append_func st w).2 ≡ true) ↔ (
          (ltb_ℤ env.started st.wait_until ≡ false)
          × SomeConnects env.new_session 0 (attempts st vacant_places))
  conservative_refill-result env n append_func st w h k =
      rw (conservative_refill_lem env n append_func st w h k) (forth, back)
    where
      tries : W × Bool
      tries = run_adders (attempts st n) 0 env.new_session append_func (w, false)

      forth :
          (if ltb_ℤ env.started st.wait_until
              then (st, w, false)
              else conclude scale env st tries).2
            ≡ true
          → (ltb_ℤ env.started st.wait_until ≡ false)
            × SomeConnects env.new_session 0 (attempts st n)
      forth r =
          let (ready, done) = pick _ (st, w) _ r in
          (
            ready,
            elim (run_adders-added append_func env.new_session (attempts st n) 0 (w, false)
                (sym (conclude-result env st tries) ∙ done)) [
                  | inl impossible ↦ cc
                  | inr found ↦ found
                ],
          )

      back :
          (ltb_ℤ env.started st.wait_until ≡ false) × SomeConnects env.new_session 0 (attempts st n)
          → (if ltb_ℤ env.started st.wait_until
              then (st, w, false)
              else conclude scale env st tries).2
            ≡ true
      back (ready, found) = rw ready (
          conclude-result env st tries
          ∙ added-run_adders append_func env.new_session (attempts st n) 0 (w, false) found)

  pub conclude-added :
      (env : RefillEnv S) (st : Conservative) (acc : W × Bool)
      → acc.1 ≡ true
      → conclude scale env st acc ≡ (record st { current_delay_ms = 0 }, acc.0, true)
  unfolding conclude
  conclude-added env st acc h = rw h

  -- The call's own attempts decide, once the wait is over.
  pub conservative_refill-ready :
      (env : RefillEnv S) (vacant_places : ℕ) (append_func : ℕ → S → W → W) (st : Conservative)
      (w : W)
      → 0 < vacant_places
      → vacant_places + 2 < size_mod
      → ltb_ℤ env.started st.wait_until ≡ false
      → conservative_refill scale env vacant_places append_func st w
        ≡ conclude scale env st
            (run_adders (attempts st vacant_places) 0 env.new_session append_func (w, false))
  conservative_refill-ready env n append_func st w h k ready =
      conservative_refill_lem env n append_func st w h k ∙ rw ready

  -- Where no attempt connects, a call adds nothing and returns false.
  pub conservative_refill-none :
      (env : RefillEnv S) (vacant_places : ℕ) (append_func : ℕ → S → W → W) (st : Conservative)
      (w : W)
      → 0 < vacant_places
      → vacant_places + 2 < size_mod
      → ((i : ℕ) → (e : ErrorCode) × (env.new_session i ≡ thrown e))
      → let r = conservative_refill scale env vacant_places append_func st w in
        (r.1 ≡ w) × (r.2 ≡ false)
  unfolding conclude
  conservative_refill-none env n append_func st w h k none_connects =
      rw
        (
          conservative_refill_lem env n append_func st w h k,
          run_adders-none append_func env.new_session none_connects (attempts st n) 0 (w, false),
        )
        (ground arith)
