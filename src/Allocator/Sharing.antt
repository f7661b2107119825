-- ===== src/Allocator/Sharing.antt =====
-- include/stream-client/stream/detail/static_allocator.hpp: the copies of an allocator.
use stream_client.Common.{
  ℕ, zero, suc, ◌+◌, ◌%◌, ◌<◌, ◌≡◌, refl, ap, ◌∙◌, false, Option, none, some, arith, ◌==◌,
}
use stream_client.Allocator.Defs.{StaticPool, share, destroy, decrement, word}

-- `n` copies of an allocator, and the end of `n` of them.
unfoldable pub share_times : ℕ → StaticPool → StaticPool
unfolding share
share_times zero pool = pool
share_times (suc n) pool = share_times n (share pool)

unfoldable pub destroy_times : ℕ → StaticPool → Option StaticPool
unfolding destroy
destroy_times zero pool = some pool
destroy_times (suc n) pool = elim (destroy pool) [
  | none ↦ none
  | some after ↦ destroy_times n after
]

share_times-refs :
    (n : ℕ) (pool : StaticPool)
    → pool.refs + n < word
    → share_times n pool ≡ record pool { refs = pool.refs + n }
unfolding share_times share
share_times-refs zero pool h = let e : pool.refs + 0 ≡ pool.refs = omega arith in rw e
share_times-refs (suc n) pool h =
    let e : (pool.refs + 1) % word ≡ pool.refs + 1 = omega arith in
    let f : pool.refs + 1 + n ≡ pool.refs + suc n = omega arith in
    share_times-refs n (share pool) (rw (e, share) (omega arith)) ∙ rw (e, f)

decrement-exact : (n : ℕ) → suc n < word → decrement (suc n) ≡ n
unfolding decrement
decrement-exact n h = omega arith

-- One of several ends, and the last.
destroys_one :
    (m : ℕ) (pool : StaticPool)
    → pool.refs ≡ suc (suc m)
    → pool.refs < word
    → destroy pool ≡ some (record pool { refs = suc m })
unfolding destroy
destroys_one m pool e h =
    let d : decrement pool.refs ≡ suc m =
      ap decrement e ∙ decrement-exact (suc m) (omega (arith, e)) in
    let more : (suc m == 0) ≡ false = ground arith in rw (d, more)

destroys_last : (pool : StaticPool) → pool.refs ≡ 1 → destroy pool ≡ none
unfolding destroy
destroys_last pool e =
    let d : decrement pool.refs ≡ 0 = ap decrement e ∙ decrement-exact 0 (omega arith) in rw d

some_left :
    (n k : ℕ) (pool : StaticPool)
    → pool.refs ≡ n + suc k
    → pool.refs < word
    → destroy_times n pool ≡ some (record pool { refs = suc k })
unfolding destroy_times
some_left zero k pool e h = let same : pool.refs ≡ suc k = omega (arith, e) in rw same
some_left (suc n) k pool e h =
    rw (destroys_one (n + k) pool (omega (arith, e)) h, destroy_times)
      (some_left n k (record pool { refs = suc (n + k) }) (omega arith) (omega (arith, e, h)))

none_left :
    (n : ℕ) (pool : StaticPool)
    → pool.refs ≡ suc n
    → pool.refs < word
    → destroy_times (suc n) pool ≡ none
unfolding destroy_times
none_left zero pool e h = rw (destroys_last pool e, destroy_times)
none_left (suc n) pool e h =
    rw (destroys_one n pool e h, destroy_times)
      (none_left n (record pool { refs = suc n }) refl (omega (arith, e, h)))

-- If an allocator is the only one of its pool and is copied a number of times that a word can
-- count, then the pool is as before when as many of them have ended, and its memory is given back
-- when the last one ends.
pub share-destroy :
    (n : ℕ) (pool : StaticPool)
    → pool.refs ≡ 1
    → n + 1 < word
    → (destroy_times n (share_times n pool) ≡ some (record pool { refs = 1 }))
      × (destroy_times (suc n) (share_times n pool) ≡ none)
share-destroy n pool e h = rw (share_times-refs n pool (omega (arith, e))) (
  some_left n 0 (record pool { refs = pool.refs + n }) (omega (arith, e)) (omega (arith, e)),
  none_left n (record pool { refs = pool.refs + n }) (omega (arith, e)) (omega (arith, e)),
)
