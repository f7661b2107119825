-- ===== src/Clock.antt =====
-- include/stream-client/detail/timed_base.hpp: durations and time points.
-- Both are counts of nanoseconds in a signed 64-bit word; a sum past the ends of the word wraps, as
-- the two's complement addition of the supported targets does.
use stream_client.Common.{
  ◌-◌, ◌*◌, ◌^◌, ℤ, pos, negsuc, ◌+ℤ◌, ◌-ℤ◌, ◌≤ℤ◌, ◌<ℤ◌, ltb_ℤ, if◌then◌else◌, arith, -ℤ_parts,
  +ℤ_parts, ◌≡◌, ℕ,
}

abbrev pub k_infinite_duration : ℤ
k_infinite_duration = pos (2 ^ 63 - 1)

abbrev pub k_zero_duration : ℤ
k_zero_duration = pos 0

abbrev pub k_duration_resolution : ℤ
k_duration_resolution = pos 1000

abbrev pub k_min_timeout : ℤ
k_min_timeout = pos (2 * 1000)

abbrev pub int64_min : ℤ
int64_min = negsuc (2 ^ 63 - 1)

-- The 64-bit word of a sum or difference of two words.
unfoldable pub wrap64 : ℤ → ℤ
wrap64 z =
    if ltb_ℤ k_infinite_duration z
    then z -ℤ pos (2 ^ 64)
    else if ltb_ℤ z int64_min
    then z +ℤ pos (2 ^ 64)
    else z

-- `time_point + duration`
unfoldable pub add_time : ℤ → ℤ → ℤ
unfolding wrap64
add_time t d = wrap64 (t +ℤ d)

-- `time_point - time_point`
unfoldable pub sub_time : ℤ → ℤ → ℤ
unfolding wrap64
sub_time t u = wrap64 (t -ℤ u)

-- A reading of the clock: not negative, and before the end of the word.
abbrev pub IsNow : ℤ → Type 0
IsNow t = (pos 0 ≤ℤ t) × (t <ℤ k_infinite_duration)

-- The time since an earlier reading of the clock needs no wrap, and is short of an infinite one.
pub sub_time-lt_infinite : (now t : ℤ) → IsNow now → IsNow t → sub_time now t <ℤ k_infinite_duration
unfolding sub_time
sub_time-lt_infinite now t n m = ground (arith, -ℤ_parts now t)

-- A sum that stays in the word is the integers' sum.
pub add_time-exact :
    (t : ℤ) (d : ℕ)
    → pos 0 ≤ℤ t
    → t +ℤ pos d ≤ℤ k_infinite_duration
    → add_time t (pos d) ≡ t +ℤ pos d
unfolding add_time
add_time-exact t d h k = ground (arith, +ℤ_parts t (pos d))
