-- ===== src/Pool/Take.antt =====
-- get_session, try_get_session, is_connected: what each does on every branch.
use stream_client.Common.{
  ◌≡◌, refl, ap, ◌⊎◌, inl, inr, Bool, true, false, not, ◌&&◌, Option, none, some, List, [], ◌∷◌,
  arith, if◌then◌else◌, is_empty, ℤ,
}
use stream_client.ErrorCode.{ErrorCode, timed_out, not_found, value, thrown}
use stream_client.Pool.Defs.{
  Pool, Wake, act_all, wait_until, ensure_session, take_front, front, pop_front, get_session,
  try_get_session, get_session_or_throw, or_throw, is_connected,
}

module _ {S : Type 0} where
  -- The pool as the other threads have it when the wait is over.
  abbrev pub pool_after_wait : List (Wake S) → Pool S → Pool S
  pool_after_wait wakes p = (wait_until wakes p).0

  -- A wait ends well exactly when it leaves a pool that is not empty.
  pub wait_until-result :
      (wakes : List (Wake S)) (p : Pool S)
      → (wait_until wakes p).1 ≡ not (is_empty (wait_until wakes p).0.sesson_pool)
  unfolding wait_until
  wait_until-result [] p = refl
  wait_until-result (w ∷ ws) p = ground (arith, wait_until-result ws (act_all w.others p))

  -- A pool with a session is not waited for.
  pub wait_until-at_once :
      (wakes : List (Wake S)) (p : Pool S)
      → is_empty p.sesson_pool ≡ false
      → wait_until wakes p ≡ (p, true)
  unfolding wait_until
  wait_until-at_once [] p h = rw h
  wait_until-at_once (w ∷ ws) p h = rw h

  -- What get_session and try_get_session promise, where `q` is the pool at the end of the wait: they
  -- fail without a trace, or move the oldest session out and leave `ec` alone.
  pub data Gets (locked : Bool) (ec : ErrorCode) (q : Pool S) (r : Pool S × Option S × ErrorCode)
      : Type 0 where
    lock_timed_out : locked ≡ false → r ≡ (q, none, timed_out) → Gets locked ec q r
    was_empty : locked ≡ true → q.sesson_pool ≡ [] → r ≡ (q, none, not_found) → Gets locked ec q r
    took :
        (t : ℤ) (s : S) (rest : List (ℤ × S))
        → locked ≡ true
        → q.sesson_pool ≡ (t, s) ∷ rest
        → r ≡ (record q { sesson_pool = rest }, some s, ec)
        → Gets locked ec q r

  take_front-Gets :
      (ec : ErrorCode) (q : Pool S) (xs : List (ℤ × S))
      → q.sesson_pool ≡ xs
      → Gets true ec q (if is_empty xs then (q, none, not_found) else take_front ec q)
  unfolding take_front front pop_front
  take_front-Gets ec q [] e = was_empty refl e refl
  take_front-Gets ec q ((t, s) ∷ rest) e = took t s rest refl e (rw (e, front, pop_front))

  pub try_get_session-Gets :
      (locked : Bool) (ec : ErrorCode) (p : Pool S) → Gets locked ec p (try_get_session locked ec p)
  unfolding try_get_session
  try_get_session-Gets true ec p = take_front-Gets ec p p.sesson_pool refl
  try_get_session-Gets false ec p = lock_timed_out refl refl

  abbrev pub pool_in_end : Bool → List (Wake S) → Pool S → Pool S
  pool_in_end locked wakes p = if locked then pool_after_wait wakes p else p

  -- With the lock, the pool that the wait leaves decides.
  pub get_session-locked :
      (wakes : List (Wake S)) (ec : ErrorCode) (p : Pool S)
      → let q = pool_after_wait wakes p in
        get_session true wakes ec p
        ≡ (if is_empty q.sesson_pool then (q, none, not_found) else take_front ec q)
  unfolding get_session ensure_session
  get_session-locked wakes ec p = ground (arith, wait_until-result wakes p)

  -- get_session, whatever other threads do while it waits, ends in one of three ways on the pool
  -- that the wait leaves: the lock timed out, no session was there, or the first session is given
  -- and is no longer in the pool.
  pub get_session-Gets :
      (locked : Bool) (wakes : List (Wake S)) (ec : ErrorCode) (p : Pool S)
      → Gets locked ec (pool_in_end locked wakes p) (get_session locked wakes ec p)
  unfolding get_session ensure_session
  get_session-Gets false wakes ec p = lock_timed_out refl refl
  get_session-Gets true wakes ec p =
      rw (get_session-locked wakes ec p)
        (take_front-Gets ec (pool_after_wait wakes p) (pool_after_wait wakes p).sesson_pool refl)

  or_throw-Gets :
      (locked : Bool) (q : Pool S) (r : Pool S × Option S × ErrorCode)
      → Gets locked ErrorCode.success q r
      → ((s : S) × (or_throw r.1 r.2 ≡ value s) × (front q.sesson_pool ≡ some s))
        ⊎ ((r.0 ≡ q)
            × ((or_throw r.1 r.2 ≡ thrown timed_out) ⊎ (or_throw r.1 r.2 ≡ thrown not_found)))
  unfolding or_throw front
  or_throw-Gets locked q r (lock_timed_out h e) =
      inr (ap (λ x. x.0) e, inl (ap (λ x. or_throw x.1 x.2) e))
  or_throw-Gets locked q r (was_empty h k e) =
      inr (ap (λ x. x.0) e, inr (ap (λ x. or_throw x.1 x.2) e))
  or_throw-Gets locked q r (took t s rest h k e) = inl (s, ap (λ x. or_throw x.1 x.2) e, ap front k)

  -- get_session without an error code gives the first session of the pool that the wait leaves, or
  -- leaves that pool as it is and throws timed_out or not_found; it never throws operation_aborted.
  pub get_session_or_throw-result :
      (locked : Bool) (wakes : List (Wake S)) (p : Pool S)
      → let r = get_session_or_throw locked wakes p in
        ((s : S) × (r.1 ≡ value s) × (front (pool_in_end locked wakes p).sesson_pool ≡ some s))
        ⊎ ((r.0 ≡ pool_in_end locked wakes p)
            × ((r.1 ≡ thrown timed_out) ⊎ (r.1 ≡ thrown not_found)))
  unfolding get_session_or_throw
  get_session_or_throw-result locked wakes p =
      or_throw-Gets locked (pool_in_end locked wakes p)
        (get_session locked wakes ErrorCode.success p)
        (get_session-Gets locked wakes ErrorCode.success p)

  -- is_connected leaves the pool as the wait leaves it; it is true exactly if the lock was got and
  -- a session is there at that point, and sets timed_out or not_found where it is false.
  pub is_connected-result :
      (locked : Bool) (wakes : List (Wake S)) (ec : ErrorCode) (p : Pool S)
      → let r = is_connected locked wakes ec p in
        (r.0 ≡ pool_in_end locked wakes p)
        × (r.1 ≡ (locked && not (is_empty (pool_in_end locked wakes p).sesson_pool)))
        × (r.2 ≡ (if not locked then timed_out else if r.1 then ec else not_found))
  unfolding is_connected ensure_session
  is_connected-result locked wakes ec p = ground (arith, wait_until-result wakes p)
