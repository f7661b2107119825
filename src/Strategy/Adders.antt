-- ===== src/Strategy/Adders.antt =====
-- What a run of `add_session` keeps, for any number of attempts.
use stream_client.Common.{ℕ, zero, suc, ◌+◌, ◌≤◌, ◌<◌, ◌≡◌, refl, ◌⊎◌, inl, inr, Bool, true, arith}
use native.Mathlib.Decide.{dec_lt}
use stream_client.ErrorCode.{ErrorCode, Throws, Throws-cases, value, thrown}
use stream_client.Strategy.Defs.{add_session, run_adders}

module _ {W : Type 0} (P : ℕ → W → Type 0) (step : (j : ℕ) (w : W) → P j w → P (j + 1) w) where
  pub advance : (d j k : ℕ) (w : W) → j + d ≡ k → P j w → P k w
  advance zero j k w e h = let e' : j ≡ k = omega arith in rw (← e') h
  advance (suc d) j k w e h = advance d (j + 1) k w (omega arith) (step j w h)

module _ {S W : Type 0} (P : ℕ → W → Type 0) (append_func : ℕ → S → W → W)
    (append : (i j : ℕ) (s : S) (w : W) → P j w → P (j + 1) (append_func i s w))
    (step : (j : ℕ) (w : W) → P j w → P (j + 1) w) where
  add_session-keeps :
      (i j : ℕ) (t : Throws S) (acc : W × Bool)
      → P j acc.0
      → P (j + 1) (add_session t (append_func i) acc).0
  unfolding add_session
  add_session-keeps i j (value s) acc h = append i j s acc.0 h
  add_session-keeps i j (thrown e) acc h = step j acc.0 h

  -- A property that each append moves on by one is moved on by `n` attempts to `j + n` at most.
  pub run_adders-keeps :
      (new_session : ℕ → Throws S) (n i j k : ℕ) (acc : W × Bool)
      → j + n ≡ k
      → P j acc.0
      → P k (run_adders n i new_session append_func acc).0
  unfolding run_adders
  run_adders-keeps new_session zero i j k acc e h = let e' : j ≡ k = omega arith in rw (← e') h
  run_adders-keeps new_session (suc n) i j k acc e h =
      run_adders-keeps new_session n (i + 1) (j + 1) k
        (add_session (new_session i) (append_func i) acc) (omega arith)
        (add_session-keeps i j (new_session i) acc h)

module _ {S W : Type 0} (size : W → ℕ) (append_func : ℕ → S → W → W) (new_session : ℕ → Throws S)
    (given : ℕ → S) (connects : (i : ℕ) → new_session i ≡ value (given i))
    (grows : (i : ℕ) (w : W) → size (append_func i (given i) w) ≡ size w + 1) where
  -- Where every attempt connects and every append counts, `n` attempts add `n`.
  pub run_adders-size :
      (n i : ℕ) (acc : W × Bool)
      → size (run_adders n i new_session append_func acc).0 ≡ size acc.0 + n
  unfolding run_adders add_session
  run_adders-size zero i acc = omega arith
  run_adders-size (suc n) i acc =
      omega
        (arith, run_adders-size n (i + 1) (add_session (new_session i) (append_func i) acc), one)
    where
      one : size (add_session (new_session i) (append_func i) acc).0 ≡ size acc.0 + 1
      one = rw (connects i, add_session) (grows i acc.0)

module _ {S W : Type 0} (append_func : ℕ → S → W → W) (new_session : ℕ → Throws S) where
  -- Where no attempt connects, nothing is appended.
  pub run_adders-none :
      ((i : ℕ) → (e : ErrorCode) × (new_session i ≡ thrown e))
      → (n i : ℕ) (acc : W × Bool) → run_adders n i new_session append_func acc ≡ acc
  unfolding run_adders add_session
  run_adders-none h zero i acc = refl
  run_adders-none h (suc n) i acc =
      let (e, k) = h i in rw (k, add_session) (run_adders-none h n (i + 1) acc)

-- One of `n` attempts from attempt `i` on connects.
abbrev pub SomeConnects : {S : Type 0} → (ℕ → Throws S) → ℕ → ℕ → Type 0
SomeConnects {S} new_session i n =
    (k : ℕ) × (s : S) × (i ≤ k) × (k < i + n) × (new_session k ≡ value s)

module _ {S W : Type 0} (append_func : ℕ → S → W → W) (new_session : ℕ → Throws S) where
  -- `is_added` is set by any attempt that connects, and by nothing else.
  pub run_adders-added :
      (n i : ℕ) (acc : W × Bool)
      → (run_adders n i new_session append_func acc).1 ≡ true
      → (acc.1 ≡ true) ⊎ SomeConnects new_session i n
  unfolding run_adders add_session
  run_adders-added zero i acc h = inl h
  run_adders-added (suc n) i acc h = elim (Throws-cases (new_session i)) [
    | inl (s, e) ↦ inr (i, s, omega arith, omega arith, e)
    | inr (c, e) ↦ elim (run_adders-added n (i + 1) acc (rw (e, run_adders, add_session) at h)) [
      | inl old ↦ inl old
      | inr (k, s, lo, hi, found) ↦ inr (k, s, omega arith, omega arith, found)
    ]
  ]

  pub run_adders-keeps_added :
      (n i : ℕ) (acc : W × Bool)
      → acc.1 ≡ true
      → (run_adders n i new_session append_func acc).1 ≡ true
  unfolding run_adders add_session
  run_adders-keeps_added zero i acc h = h
  run_adders-keeps_added (suc n) i acc h =
      run_adders-keeps_added n (i + 1) (add_session (new_session i) (append_func i) acc)
        (elim (Throws-cases (new_session i)) [
          | inl (s, e) ↦ rw (e, add_session)
          | inr (c, e) ↦ rw (e, add_session) h
        ])

  pub added-run_adders :
      (n i : ℕ) (acc : W × Bool)
      → SomeConnects new_session i n
      → (run_adders n i new_session append_func acc).1 ≡ true
  unfolding run_adders add_session
  added-run_adders zero i acc (k, s, lo, hi, e) = absurd (omega arith)
  added-run_adders (suc n) i acc (k, s, lo, hi, e) = elim (dec_lt i k) [
    | yes later ↦
        added-run_adders n (i + 1) (add_session (new_session i) (append_func i) acc)
          (k, s, omega arith, omega arith, e)
    | no here ↦
        let same : i ≡ k = omega arith in
        run_adders-keeps_added n (i + 1) (add_session (new_session i) (append_func i) acc)
          (rw (same, e, add_session))
  ]
