-- ===== src/Pool/Sweep.antt =====
-- The loop that erases idle sessions, against a filter.
use stream_client.Common.{
  ◌≡◌, refl, ap, inl, inr, Bool, List, [], ◌∷◌, arith, Bool-cases, length, keep, ℤ, ltb_ℤ,
}
use stream_client.Clock.{sub_time, IsNow, k_infinite_duration, sub_time-lt_infinite}
use stream_client.Pool.Defs.{erase_idle}

module _ {S : Type 0} where
  -- A session that has been in the pool for less than the idle timeout.
  abbrev pub is_fresh : ℤ → ℤ → ℤ × S → Bool
  is_fresh now idle_timeout e = ltb_ℤ (sub_time now e.0) idle_timeout

  -- The sweep keeps exactly the sessions whose time in the pool is short of the idle timeout, in
  -- their order, and its counter is their number.
  pub erase_idle_lem :
      (now idle_timeout : ℤ) (xs : List (ℤ × S))
      → erase_idle now idle_timeout xs
        ≡ (keep (is_fresh now idle_timeout) xs, length (keep (is_fresh now idle_timeout) xs))
  unfolding erase_idle
  erase_idle_lem now idle [] = refl
  erase_idle_lem now idle ((t, s) ∷ xs) = ground (arith, erase_idle_lem now idle xs)

  -- Every session was put in at a moment that the clock has shown.
  abbrev pub AllStamped : List (ℤ × S) → Type 0
  AllStamped [] = Unit
  AllStamped ((t, s) ∷ xs) = IsNow t × AllStamped xs

  -- If the idle timeout is the infinite one, and the clock and all times in the pool are readings
  -- of the clock, the sweep erases nothing.
  pub erase_idle-infinite :
      (now : ℤ) (xs : List (ℤ × S))
      → IsNow now
      → AllStamped xs
      → erase_idle now k_infinite_duration xs ≡ (xs, length xs)
  unfolding erase_idle
  erase_idle-infinite now [] n h = refl
  erase_idle-infinite now ((t, s) ∷ xs) n h =
      ground (arith, erase_idle-infinite now xs n h.1, sub_time-lt_infinite now t n h.0)

  -- A second sweep at the same moment changes nothing.
  pub keep-keep : (p : ℤ × S → Bool) (xs : List (ℤ × S)) → keep p (keep p xs) ≡ keep p xs
  keep-keep p [] = refl
  keep-keep p (x ∷ xs) = elim (Bool-cases (p x)) [
    | inl e ↦ rw (e, e) (ap (◌∷◌ x) (keep-keep p xs))
    | inr e ↦ rw e (keep-keep p xs)
  ]
