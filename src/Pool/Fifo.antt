-- ===== src/Pool/Fifo.antt =====
-- The pool of connection_pool.hpp as a queue of sessions.
use stream_client.Common.{
  ℕ, zero, suc, ◌+◌, ◌≤◌, ◌≡◌, refl, ap, ◌∙◌, Bool, true, ◌&&◌, none, some, List, [], ◌∷◌, ◌++◌,
  map, arith, if◌then◌else◌, length, length-append, ℤ,
}
use mathlib.Core.List.{append_assoc, append-nil, map-append}
use stream_client.ErrorCode.{success}
use stream_client.Pool.Defs.{
  Pool, act, returns, return_session, try_get_session, take_front, front, pop_front,
}
use stream_client.Pool.Size.{pool_size}

module _ {S : Type 0} where
  -- The sessions that wait in the pool, oldest first.
  abbrev pub sessions : Pool S → List S
  sessions p = map (λ e. e.1) p.sesson_pool

  -- return_session appends an open session if it gets the lock, and drops any other.
  pub sessions-return_session :
      (is_open : S → Bool) (s : S) (locked : Bool) (now : ℤ) (p : Pool S)
      → sessions (return_session is_open (some s) locked now p)
        ≡ (if is_open s && locked then sessions p ++ s ∷ [] else sessions p)
  unfolding return_session act
  sessions-return_session is_open s locked now p =
      ground (arith, map-append (λ (e : ℤ × S). e.1) p.sesson_pool ((now, s) ∷ []))

  -- Sessions returned one after the other, each with the time of its return.
  unfoldable pub return_all : (is_open : S → Bool) → List (ℤ × S) → Pool S → Pool S
  unfolding return_session
  return_all is_open [] p = p
  return_all is_open ((now, s) ∷ xs) p =
      return_all is_open xs (return_session is_open (some s) true now p)

  abbrev pub AllOpen : (S → Bool) → List (ℤ × S) → Type 0
  AllOpen is_open [] = Unit
  AllOpen is_open ((now, s) ∷ xs) = (is_open s ≡ true) × AllOpen is_open xs

  -- `n` calls of try_get_session that get the lock, and the sessions that they give.
  unfoldable pub get_all : ℕ → Pool S → List S × Pool S
  unfolding try_get_session
  get_all zero p = ([], p)
  get_all (suc n) p =
      let r = try_get_session true success p in
      let rest = get_all n r.0 in (elim r.1 [ none ↦ rest.0 | some s ↦ s ∷ rest.0 ], rest.1)

  pub return_all_lem :
      (is_open : S → Bool) (xs : List (ℤ × S)) (p : Pool S)
      → AllOpen is_open xs
      → return_all is_open xs p ≡ record p { sesson_pool = p.sesson_pool ++ xs }
  unfolding return_all return_session act
  return_all_lem is_open [] p h = rw append-nil
  return_all_lem is_open ((now, s) ∷ xs) p h = rw h.0 (
      return_all_lem is_open xs (act (returns now s) p) h.1
      ∙ ap (λ ys. record p { sesson_pool = ys }) (append_assoc p.sesson_pool ((now, s) ∷ []) xs))

  get_all_entries :
      (size : ℕ) (idle : ℤ) (xs : List (ℤ × S)) (n : ℕ)
      → length xs ≤ n
      → get_all n (record { pool_max_size = size; idle_timeout = idle; sesson_pool = xs }) ≡ (
        map (λ e. e.1) xs,
        record { pool_max_size = size; idle_timeout = idle; sesson_pool = [] },
      )
  unfolding get_all try_get_session take_front front pop_front
  get_all_entries size idle [] zero h = refl
  get_all_entries size idle (x ∷ xs) zero h = absurd (omega arith)
  get_all_entries size idle [] (suc n) h = get_all_entries size idle [] n (omega arith)
  get_all_entries size idle ((t, s) ∷ xs) (suc n) h =
      ap (λ r. (s ∷ r.0, r.1)) (get_all_entries size idle xs n (omega arith))

  pub get_all_lem :
      (n : ℕ) (p : Pool S)
      → pool_size p ≤ n
      → get_all n p ≡ (sessions p, record p { sesson_pool = [] })
  get_all_lem n p h = get_all_entries p.pool_max_size p.idle_timeout p.sesson_pool n h

  -- The pool grows by all the open sessions that come back to it under the lock, whatever its
  -- pool_max_size.
  pub pool_size-return_all :
      (is_open : S → Bool) (xs : List (ℤ × S)) (p : Pool S)
      → AllOpen is_open xs
      → pool_size (return_all is_open xs p) ≡ pool_size p + length xs
  pool_size-return_all is_open xs p h =
      rw (return_all_lem is_open xs p h) (length-append p.sesson_pool xs)

  -- If open sessions are returned, each under the lock, to a pool, then taking all sessions gives
  -- those that waited before and behind them the returned ones, in order.
  pub get_all-return_all :
      (is_open : S → Bool) (xs : List (ℤ × S)) (p : Pool S)
      → AllOpen is_open xs
      → (get_all (pool_size p + length xs) (return_all is_open xs p)).0
        ≡ sessions p ++ map (λ e. e.1) xs
  get_all-return_all is_open xs p h =
      ap (λ r. r.0)
        (get_all_lem (pool_size p + length xs) (return_all is_open xs p)
          (omega (arith, pool_size-return_all is_open xs p h)))
      ∙ ap sessions (return_all_lem is_open xs p h)
      ∙ map-append (λ e. e.1) p.sesson_pool xs
