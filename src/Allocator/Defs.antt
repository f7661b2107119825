-- ===== src/Allocator/Defs.antt =====
-- include/stream-client/stream/detail/static_allocator.hpp.
-- Addresses, counters and byte sizes are 64-bit words.
use stream_client.Common.{
  ℕ, ◌+◌, ◌-◌, ◌*◌, ◌%◌, ◌^◌, not, Option, none, some, leb, ◌==◌, if◌then◌else◌,
}
use stream_client.ErrorCode.{bad_alloc, Throws, value, thrown}

abbrev pub word : ℕ
word = 2 ^ 64

-- `start`: the address `this + 1`, where the block of memory begins.
pub record StaticPool : Type 0 where
  pub start : ℕ
  pub size : ℕ
  pub refs : ℕ
  pub count : ℕ
  pub p : ℕ

-- construct, with the constructor; `start` is of the memory that `new` gives.
unfoldable pub construct : (start size : ℕ) → StaticPool
construct start size = record { start = start; size = size; refs = 1; count = 0; p = start }

unfoldable pub share : StaticPool → StaticPool
share pool = record pool { refs = (pool.refs + 1) % word }

-- `--` of a word
unfoldable pub decrement : ℕ → ℕ
decrement n = (n + word - 1) % word

-- destroy; `none` where the memory is given back.
unfoldable pub destroy : StaticPool → Option StaticPool
unfolding decrement
destroy pool =
    if not (decrement pool.refs == 0)
    then some (record pool { refs = decrement pool.refs })
    else none

unfoldable pub end_ : StaticPool → ℕ
end_ pool = (pool.start + pool.size) % word

unfoldable pub alloc : ℕ → StaticPool → StaticPool × Throws ℕ
unfolding end_
alloc n pool =
    let last = (pool.p + n) % word in
    if leb (end_ pool) last
    then (pool, thrown bad_alloc)
    else (record pool { count = (pool.count + 1) % word; p = last }, value pool.p)

unfoldable pub dealloc : StaticPool → StaticPool
unfolding decrement
dealloc pool =
    if not (decrement pool.count == 0)
    then record pool { count = decrement pool.count }
    else record pool { count = decrement pool.count; p = pool.start }

-- static_allocator<T>::allocate, for the size of a T
unfoldable pub allocate : (sizeof : ℕ) → ℕ → StaticPool → StaticPool × Throws ℕ
unfolding alloc
allocate sizeof n pool = alloc (n * sizeof % word) pool

unfoldable pub deallocate : StaticPool → StaticPool
unfolding dealloc
deallocate pool = dealloc pool
