-- ===== src/Pool/Calls.antt =====
-- The overloads of connector/connection_pool.hpp that take a duration or none. Which lock a deadline
-- allows, and the wakes until it, are what surrounds a call.
use stream_client.Common.{
  ◌≡◌, Bool, Option, [], List, if◌then◌else◌, arith, ℤ, pos, ◌<ℤ◌, ◌+ℤ◌, +ℤ_parts, -ℤ_parts, ◌^◌,
  not, ◌&&◌, is_empty,
}
use stream_client.ErrorCode.{ErrorCode, success, Throws, value, thrown, failed}
use stream_client.Clock.{add_time, IsNow, k_infinite_duration, wrap64}
use stream_client.Connector.Calls.{TimeoutSettings, get_connect_timeout}
use stream_client.Pool.Defs.{
  Pool, Wake, get_session, try_get_session, get_session_or_throw, is_connected, ensure_session,
  wait_until,
}

pub record Waits (S : Type 0) : Type 0 where
  pub locked : ℤ → Bool
  pub wakes : ℤ → List (Wake S)

-- Documented behaviour of a wait: one whose deadline has passed does not block.
abbrev pub IsPrompt : {S : Type 0} → Waits S → ℤ → Type 0
IsPrompt w now = (deadline : ℤ) → deadline <ℤ now → w.wakes deadline ≡ []

module _ {S : Type 0} (w : Waits S) (now : ℤ) where
  -- get_session(ec, timeout)
  unfoldable pub get_session_for :
      (timeout : ℤ) → ErrorCode → Pool S → Pool S × Option S × ErrorCode
  unfolding get_session add_time
  get_session_for timeout ec p =
      get_session (w.locked (add_time now timeout)) (w.wakes (add_time now timeout)) ec p

  -- get_session(ec)
  unfoldable pub get_session_default :
      TimeoutSettings → ErrorCode → Pool S → Pool S × Option S × ErrorCode
  unfolding get_session_for get_connect_timeout
  get_session_default x ec p = get_session_for (get_connect_timeout x) ec p

  -- get_session()
  unfoldable pub get_session_default_or_throw : TimeoutSettings → Pool S → Pool S × Throws S
  unfolding get_session_or_throw get_connect_timeout add_time
  get_session_default_or_throw x p =
      let deadline = add_time now (get_connect_timeout x) in
      get_session_or_throw (w.locked deadline) (w.wakes deadline) p

  -- try_get_session(ec, timeout)
  unfoldable pub try_get_session_for :
      (timeout : ℤ) → ErrorCode → Pool S → Pool S × Option S × ErrorCode
  unfolding try_get_session add_time
  try_get_session_for timeout ec p = try_get_session (w.locked (add_time now timeout)) ec p

  -- is_connected(ec, timeout)
  unfoldable pub is_connected_for : (timeout : ℤ) → ErrorCode → Pool S → Pool S × Bool × ErrorCode
  unfolding is_connected add_time
  is_connected_for timeout ec p =
      is_connected (w.locked (add_time now timeout)) (w.wakes (add_time now timeout)) ec p

  -- is_connected(ec)
  unfoldable pub is_connected_default :
      TimeoutSettings → ErrorCode → Pool S → Pool S × Bool × ErrorCode
  unfolding is_connected_for get_connect_timeout
  is_connected_default x ec p = is_connected_for (get_connect_timeout x) ec p

  -- is_connected()
  unfoldable pub is_connected_or_throw : TimeoutSettings → Pool S → Pool S × Throws Bool
  unfolding is_connected_default
  is_connected_or_throw x p =
      let r = is_connected_default x success p in
      (r.0, (if failed r.2 then thrown r.2 else value r.1))

-- A clock that has started, with an infinite duration added to it, is in the past.
pub add_time-infinite :
    (now : ℤ) → IsNow now → pos 0 <ℤ now → add_time now k_infinite_duration <ℤ now
unfolding add_time wrap64
add_time-infinite now n started =
    ground (
      arith,
      +ℤ_parts now k_infinite_duration,
      -ℤ_parts (now +ℤ k_infinite_duration) (pos (2 ^ 64)),
    )

module _ {S : Type 0} where
  get_session-asleep :
      (locked : Bool) (ec : ErrorCode) (p : Pool S)
      → get_session locked [] ec p ≡ try_get_session locked ec p
  unfolding get_session try_get_session ensure_session wait_until
  get_session-asleep locked ec p = ground arith

  is_connected-asleep :
      (locked : Bool) (ec : ErrorCode) (p : Pool S)
      → (is_connected locked [] ec p).1 ≡ (locked && not (is_empty p.sesson_pool))
  unfolding is_connected ensure_session wait_until
  is_connected-asleep locked ec p = ground arith

  -- If a wait whose deadline has passed does not block, then under an infinite duration, once the
  -- clock has started, get_session does exactly what try_get_session does, and is_connected tells
  -- whether the lock is got and a session is there already: neither waits for one.
  pub get_session_for-infinite :
      (w : Waits S) (now : ℤ) (ec : ErrorCode) (p : Pool S)
      → IsNow now
      → pos 0 <ℤ now
      → IsPrompt w now
      → (get_session_for w now k_infinite_duration ec p
          ≡ try_get_session_for w now k_infinite_duration ec p)
        × ((is_connected_for w now k_infinite_duration ec p).1
            ≡ (w.locked (add_time now k_infinite_duration) && not (is_empty p.sesson_pool)))
  unfolding get_session_for try_get_session_for is_connected_for wait_until
  get_session_for-infinite w now ec p n started prompt =
      let deadline = add_time now k_infinite_duration in
      rw (prompt deadline (add_time-infinite now n started))
        (get_session-asleep (w.locked deadline) ec p, is_connected-asleep (w.locked deadline) ec p)
