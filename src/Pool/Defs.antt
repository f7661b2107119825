-- ===== src/Pool/Defs.antt =====
-- include/stream-client/connector/connection_pool.hpp and impl/connection_pool.ipp.
-- What holds pool_mutex_ is one step. What other threads do while an operation waits, or between two
-- of its critical sections, is an argument: a list of their actions on the list of sessions. Whether
-- a lock is got in time, and what the clock shows, are arguments too.
use stream_client.Common.{
  ℕ, suc, Bool, true, false, not, Option, none, some, List, [], ◌∷◌, ◌++◌, if◌then◌else◌, ℤ, leb_ℤ,
  is_empty,
}
use stream_client.ErrorCode.{
  ErrorCode, timed_out, not_found, operation_aborted, Throws, value, thrown, failed,
}
use stream_client.Clock.{sub_time, k_infinite_duration}

pub record Pool (S : Type 0) : Type 0 where
  pub pool_max_size : ℕ
  pub idle_timeout : ℤ
  pub sesson_pool : List (ℤ × S)

-- What another thread does to the pool in one critical section.
pub data Action (S : Type 0) : Type 0 where
  takes : Action S
  returns : ℤ → S → Action S
  sweeps : ℤ → Action S

-- One return from wait_until(lock, deadline): what the others did, and whether the deadline passed.
pub record Wake (S : Type 0) : Type 0 where
  pub others : List (Action S)
  pub expired : Bool

module _ {S : Type 0} where
  -- The constructors.
  unfoldable pub connection_pool : ℕ → ℤ → Pool S
  connection_pool size idle_timeout = record {
    pool_max_size = size;
    idle_timeout = idle_timeout;
    sesson_pool = [];
  }

  unfoldable pub connection_pool_no_idle : ℕ → Pool S
  unfolding connection_pool
  connection_pool_no_idle size = connection_pool size k_infinite_duration

  -- `front().second` and `pop_front()` of a list that is not empty
  unfoldable pub front : List (ℤ × S) → Option S
  front [] = none
  front ((t, s) ∷ r) = some s

  unfoldable pub pop_front : List (ℤ × S) → List (ℤ × S)
  pop_front [] = []
  pop_front (e ∷ r) = r

  -- The loop of watch_pool_routine that erases idle sessions, with `pool_current_size`.
  unfoldable pub erase_idle : ℤ → ℤ → List (ℤ × S) → List (ℤ × S) × ℕ
  erase_idle now idle_timeout [] = ([], 0)
  erase_idle now idle_timeout ((t, s) ∷ r) =
      let rest = erase_idle now idle_timeout r in
      if leb_ℤ idle_timeout (sub_time now t) then rest else ((t, s) ∷ rest.0, suc rest.1)

  unfoldable pub act : Action S → Pool S → Pool S
  unfolding pop_front erase_idle
  act takes p = record p { sesson_pool = pop_front p.sesson_pool }
  act (returns now s) p = record p { sesson_pool = p.sesson_pool ++ (now, s) ∷ [] }
  act (sweeps now) p = record p { sesson_pool = (erase_idle now p.idle_timeout p.sesson_pool).0 }

  unfoldable pub act_all : List (Action S) → Pool S → Pool S
  unfolding act
  act_all [] p = p
  act_all (a ∷ as_) p = act_all as_ (act a p)

  -- `pool_cv_.wait_until(pool_lk, deadline, [this] { return !sesson_pool_.empty(); })`; the deadline
  -- has passed when the list of wakes ends.
  unfoldable pub wait_until : List (Wake S) → Pool S → Pool S × Bool
  unfolding act_all
  wait_until [] p = (p, not (is_empty p.sesson_pool))
  wait_until (w ∷ ws) p =
      let after = act_all w.others p in
      let later = wait_until ws after in
      if not (is_empty p.sesson_pool)
      then (p, true)
      else if w.expired
      then (after, not (is_empty after.sesson_pool))
      else later

  -- ensure_session: the pool, the result and `ec`
  unfoldable pub ensure_session :
      Bool → List (Wake S) → ErrorCode → Pool S → Pool S × Bool × ErrorCode
  unfolding wait_until
  ensure_session locked wakes ec p =
      if not locked
      then (p, false, timed_out)
      else let waited = wait_until wakes p in
        if waited.1 then (waited.0, true, ec) else (waited.0, false, not_found)

  -- The end of get_session and try_get_session: move the first session out.
  unfoldable pub take_front : ErrorCode → Pool S → Pool S × Option S × ErrorCode
  unfolding front pop_front
  take_front ec p = (record p { sesson_pool = pop_front p.sesson_pool }, front p.sesson_pool, ec)

  unfoldable pub get_session :
      Bool → List (Wake S) → ErrorCode → Pool S → Pool S × Option S × ErrorCode
  unfolding ensure_session take_front
  get_session locked wakes ec p =
      let ensured = ensure_session locked wakes ec p in
      if not ensured.1 then (ensured.0, none, ensured.2) else take_front ensured.2 ensured.0

  unfoldable pub try_get_session : Bool → ErrorCode → Pool S → Pool S × Option S × ErrorCode
  unfolding take_front
  try_get_session locked ec p =
      if not locked
      then (p, none, timed_out)
      else if is_empty p.sesson_pool
      then (p, none, not_found)
      else take_front ec p

  -- The throwing overload's checks on what get_session gave.
  unfoldable pub or_throw : Option S → ErrorCode → Throws S
  or_throw session ec =
      if failed ec
      then thrown ec
      else elim session [ none ↦ thrown operation_aborted | some s ↦ value s ]

  unfoldable pub get_session_or_throw : Bool → List (Wake S) → Pool S → Pool S × Throws S
  unfolding get_session or_throw
  get_session_or_throw locked wakes p =
      let got = get_session locked wakes ErrorCode.success p in (got.0, or_throw got.1 got.2)

  unfoldable pub is_connected :
      Bool → List (Wake S) → ErrorCode → Pool S → Pool S × Bool × ErrorCode
  unfolding ensure_session
  is_connected locked wakes ec p = ensure_session locked wakes ec p

  -- return_session; `none` is a null pointer.
  unfoldable pub return_session :
      (is_open : S → Bool) → Option S → (locked : Bool) → (now : ℤ) → Pool S → Pool S
  unfolding act
  return_session is_open none locked now p = p
  return_session is_open (some s) locked now p =
      if not (is_open s) then p else if not locked then p else act (returns now s) p
