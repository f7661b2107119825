-- ===== src/Strategy/Backoff.antt =====
-- conservative_strategy of impl/pool_strategy.ipp: what a call that fails holds back.
use stream_client.Common.{
  ℕ, ◌+◌, ◌*◌, ◌/◌, ◌≤◌, ◌<◌, ◌≡◌, ◌∙◌, Bool, true, false, arith, lt→ltb, ℤ, pos, ◌+ℤ◌, ◌≤ℤ◌, ◌<ℤ◌,
  ltb_ℤ, +ℤ_parts,
}
use stream_client.Clock.{IsNow, add_time-exact, k_infinite_duration}
use stream_client.Strategy.Defs.{
  RefillEnv, run_adders, size_mod, Conservative, k_max_backoff_ms, next_delay, back_off, conclude,
  conservative_refill,
}
use stream_client.Strategy.Attempts.{conservative_refill_lem}

-- The delay never passes ten seconds.
pub next_delay-le :
    (scale : ℕ → ℕ → ℕ) (st : Conservative) (roll : ℕ) → next_delay scale st roll ≤ k_max_backoff_ms
unfolding next_delay
next_delay-le scale st roll = omega arith

back_off-waits :
    (scale : ℕ → ℕ → ℕ) (st : Conservative) (now later : ℤ) (roll : ℕ)
    → IsNow now
    → now +ℤ pos (k_max_backoff_ms * 1_000_000) ≤ℤ k_infinite_duration
    → later <ℤ now +ℤ pos ((back_off scale st now roll).current_delay_ms * 1_000_000)
    → ltb_ℤ later (back_off scale st now roll).wait_until ≡ true
unfolding back_off
back_off-waits scale st now later roll clock room early =
    rw
      (add_time-exact now ms clock.0 (
        omega (
          arith,
          +ℤ_parts now (pos ms),
          +ℤ_parts now (pos (k_max_backoff_ms * 1_000_000)),
          next_delay-le scale st roll,
        )))
      (lt→ltb _ _ early)
  where
    ms : ℕ
    ms = next_delay scale st roll * 1_000_000

back_off-vanishes :
    (scale : ℕ → ℕ → ℕ) (st : Conservative) (now later : ℤ) (roll : ℕ)
    → next_delay scale st roll ≡ 0
    → IsNow now
    → now ≤ℤ later
    → ((back_off scale st now roll).current_delay_ms ≡ 0)
      × (ltb_ℤ later (back_off scale st now roll).wait_until ≡ false)
unfolding back_off
back_off-vanishes scale st now later roll e clock h = (
  e,
  rw (e, add_time-exact now 0 clock.0 (omega (arith, +ℤ_parts now (pos 0))))
      (ground (arith, +ℤ_parts now (pos 0))),
)

module _ {S W : Type 0} (scale : ℕ → ℕ → ℕ) where
  waits :
      (env : RefillEnv S) (n : ℕ) (append_func : ℕ → S → W → W) (st : Conservative) (w : W)
      → ltb_ℤ env.started st.wait_until ≡ true
      → conservative_refill scale env n append_func st w ≡ (st, w, false)
  unfolding conservative_refill
  waits env n append_func st w h = rw h

  conclude-fails :
      (env : RefillEnv S) (st : Conservative) (acc : W × Bool)
      → (conclude scale env st acc).2 ≡ false
      → (conclude scale env st acc).0 ≡ back_off scale st env.finished env.roll
  unfolding conclude
  conclude-fails env st acc h = ground arith

  fails :
      (env : RefillEnv S) (n : ℕ) (append_func : ℕ → S → W → W) (st : Conservative) (w : W)
      → ltb_ℤ env.started st.wait_until ≡ false
      → (conservative_refill scale env n append_func st w).2 ≡ false
      → (conservative_refill scale env n append_func st w).0
        ≡ back_off scale st env.finished env.roll
  unfolding conservative_refill
  fails env n append_func st w ready h = rw ready (conclude-fails env st _ (rw ready at h))

  -- If a call of the conservative strategy's refill that was not held back itself fails at a clock
  -- that leaves room for the longest delay, then a call that starts before the delay is over
  -- attempts nothing and changes nothing.
  pub conservative_refill-holds_back :
      (env next : RefillEnv S) (n m : ℕ) (append_func append_next : ℕ → S → W → W)
      (st : Conservative) (w v : W)
      → ltb_ℤ env.started st.wait_until ≡ false
      → (conservative_refill scale env n append_func st w).2 ≡ false
      → IsNow env.finished
      → env.finished +ℤ pos (k_max_backoff_ms * 1_000_000) ≤ℤ k_infinite_duration
      → let failed = (conservative_refill scale env n append_func st w).0 in
        next.started <ℤ env.finished +ℤ pos (failed.current_delay_ms * 1_000_000)
        → conservative_refill scale next m append_next failed v ≡ (failed, v, false)
  conservative_refill-holds_back env next n m append_func append_next st w v ready nothing now room
        early =
      let e = fails env n append_func st w ready nothing in
      rw e (
        waits next m append_next _ v
          (back_off-waits scale st env.finished next.started env.roll now room (rw e at early)))

  starts_afresh :
      (env : RefillEnv S) (n : ℕ) (append_func : ℕ → S → W → W) (st : Conservative) (w : W)
      → st.current_delay_ms ≡ 0
      → ltb_ℤ env.started st.wait_until ≡ false
      → 0 < n
      → n + 2 < size_mod
      → conservative_refill scale env n append_func st w
        ≡ conclude scale env st (run_adders ((n + 2) / 3) 0 env.new_session append_func (w, false))
  starts_afresh env n append_func st w no_delay ready h k =
      conservative_refill_lem scale env n append_func st w h k ∙ rw (ready, no_delay)

  -- If a call of the conservative strategy's refill fails and the random fraction cuts the delay to
  -- 0, a call for some vacant places that starts no earlier makes attempts for a third of them,
  -- rounded up: neither the wait nor the limit to one attempt holds it back.
  pub conservative_refill-forgets :
      (env next : RefillEnv S) (n m : ℕ) (append_func append_next : ℕ → S → W → W)
      (st : Conservative) (w v : W)
      → ltb_ℤ env.started st.wait_until ≡ false
      → (conservative_refill scale env n append_func st w).2 ≡ false
      → next_delay scale st env.roll ≡ 0
      → IsNow env.finished
      → env.finished ≤ℤ next.started
      → 0 < m
      → m + 2 < size_mod
      → let failed = (conservative_refill scale env n append_func st w).0 in
        conservative_refill scale next m append_next failed v
        ≡ conclude scale next failed
            (run_adders ((m + 2) / 3) 0 next.new_session append_next (v, false))
  conservative_refill-forgets env next n m append_func append_next st w v ready nothing none_left
        now later h k =
      let (zero_delay, over) =
        back_off-vanishes scale st env.finished next.started env.roll none_left now later in
      rw (fails env n append_func st w ready nothing) (
        starts_afresh next m append_next (back_off scale st env.finished env.roll) v zero_delay over
          h k)
