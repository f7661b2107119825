-- ===== src/Allocator/Examples.antt =====
-- An allocator with a block of 100 bytes at the address 1000.
use stream_client.Common.{◌+◌, ◌≤◌, refl, [], ◌∷◌, arith}
use stream_client.Allocator.Defs.{construct, allocate}
use stream_client.Allocator.Blocks.{Heap, allocates, Reach, start, later, Reach-apart}

abbrev used : Heap
used = record {
  pool = record { start = 1000; size = 100; refs = 1; count = 2; p = 1048 };
  live = (1024, 24) ∷ (1000, 24) ∷ [];
}

used-Reach : Reach 8 1000 100 used
unfolding construct allocate
used-Reach =
    later
      (later start (
        allocates 3 1000 (record { start = 1000; size = 100; refs = 1; count = 1; p = 1024 })
          (omega arith) (omega arith) refl))
      (allocates 3 1024 (record { start = 1000; size = 100; refs = 1; count = 2; p = 1048 })
        (omega arith) (omega arith) refl)

Reach-apart_example : (1000 ≤ 1000) × (1000 + 24 ≤ 1024) × (1024 + 24 ≤ 1000 + 100)
Reach-apart_example = Reach-apart [] (1024, 24) [] (1000, 24) [] used-Reach refl
