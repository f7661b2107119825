-- ===== src/Allocator/Blocks.antt =====
-- include/stream-client/stream/detail/static_allocator.hpp: the blocks that an allocator gives out.
use stream_client.Common.{
  ℕ, suc, ◌+◌, ◌-◌, ◌*◌, ◌%◌, ◌≤◌, ◌<◌, ◌≡◌, refl, sym, ap, ◌∙◌, inl, inr, false, List, [], ◌∷◌,
  ◌++◌, arith, leb, ◌==◌, length, length-append, Bool-cases,
}
use stream_client.ErrorCode.{value, thrown, bad_alloc}
use stream_client.Allocator.Defs.{
  StaticPool, end_, construct, alloc, dealloc, allocate, deallocate, decrement, word,
}

-- A block: its start and the bytes asked for.
abbrev pub Block : Type 0
Block = ℕ × ℕ

-- A pool and the blocks in use, the last allocated first.
pub record Heap : Type 0 where
  pub pool : StaticPool
  pub live : List Block

-- An allocation that succeeds, whose bytes do not go past the last address, and the release of any
-- block. The blocks in use are fewer than a word counts.
pub data Step (sizeof : ℕ) (h : Heap) : Heap → Type 0 where
  allocates :
      (n start : ℕ) (q : StaticPool)
      → h.pool.p + n * sizeof < word
      → length h.live + 1 < word
      → allocate sizeof n h.pool ≡ (q, value start)
      → Step sizeof h (record { pool = q; live = (start, n * sizeof) ∷ h.live })
  releases :
      (before : List Block) (b : Block) (after : List Block)
      → h.live ≡ before ++ b ∷ after
      → Step sizeof h (record { pool = deallocate h.pool; live = before ++ after })

pub data Reach (sizeof start_ size : ℕ) : Heap → Type 0 where
  start : Reach sizeof start_ size (record { pool = construct start_ size; live = [] })
  later : {h k : Heap} → Reach sizeof start_ size h → Step sizeof h k → Reach sizeof start_ size k

-- The blocks end below `bound`, each below the one before it, and the last of them begins at `low`
-- or behind.
abbrev pub Below : (low bound : ℕ) → List Block → Type 0
Below low bound [] = low ≤ bound
Below low bound (b ∷ bs) = (b.0 + b.1 ≤ bound) × Below low b.0 bs

pub record IsSound (start_ size : ℕ) (h : Heap) : Type 0 where
  pub started : h.pool.start ≡ start_
  pub sized : h.pool.size ≡ size
  pub counted : h.pool.count ≡ length h.live
  pub countable : length h.live < word
  pub below : Below start_ h.pool.p h.live
  pub within : h.pool.p ≤ start_ + size

Below-weaken : (low m n : ℕ) (bs : List Block) → m ≤ n → Below low m bs → Below low n bs
Below-weaken low m n [] le h = omega arith
Below-weaken low m n (b ∷ bs) le h = (omega (arith, h.0), h.1)

Below-remove :
    (low bound : ℕ) (before : List Block) (b : Block) (after : List Block)
    → Below low bound (before ++ b ∷ after)
    → Below low bound (before ++ after)
Below-remove low bound [] b after h = Below-weaken low b.0 bound after (omega (arith, h.0)) h.1
Below-remove low bound (a ∷ before) b after h = (h.0, Below-remove low a.0 before b after h.1)

decrement-suc : (n : ℕ) → suc n < word → decrement (suc n) ≡ n
unfolding decrement
decrement-suc n h = omega arith

-- What an allocation that succeeds tells, without a wrap of its end.
alloc-gives :
    (k at_ : ℕ) (p q : StaticPool)
    → p.p + k < word
    → alloc k p ≡ (q, value at_)
    → (p.p + k < end_ p)
      × (at_ ≡ p.p)
      × (q ≡ record p { count = (p.count + 1) % word; p = p.p + k })
unfolding alloc
alloc-gives k at_ p q small e =
    let exact : (p.p + k) % word ≡ p.p + k = omega arith in
    elim (Bool-cases (leb (end_ p) (p.p + k))) [
      | inl full ↦ absurd (
          let refused : alloc k p ≡ (p, thrown bad_alloc) = rw (exact, full, alloc) in
          ground (arith, refused))
      | inr room ↦
          let given : alloc k p
              ≡ (record p { count = (p.count + 1) % word; p = p.p + k }, value p.p) =
            rw (exact, room, alloc) in
          (ground arith, ground (arith, given), sym (ap (λ x. x.0) (sym given ∙ e)))
    ]

allocates-IsSound :
    (start_ size sizeof n at_ : ℕ) (h : Heap) (q : StaticPool)
    → h.pool.p + n * sizeof < word
    → length h.live + 1 < word
    → allocate sizeof n h.pool ≡ (q, value at_)
    → IsSound start_ size h
    → IsSound start_ size (record { pool = q; live = (at_, n * sizeof) ∷ h.live })
unfolding allocate end_
allocates-IsSound start_ size sizeof n at_ h q small few e s =
    let exact : n * sizeof % word ≡ n * sizeof = omega arith in
    let (room, same, is) = alloc-gives (n * sizeof) at_ h.pool q small (rw exact at e) in
    rw (is, same)
      (record {
        started = s.started;
        sized = s.sized;
        counted = omega (arith, s.counted);
        countable = omega arith;
        below = (omega arith, s.below);
        within = omega (arith, s.started, s.sized, room);
      })

length-remove :
    (before : List Block) (b : Block) (after : List Block)
    → length (before ++ b ∷ after) ≡ suc (length (before ++ after))
length-remove before b after =
    omega (arith, length-append before (b ∷ after), length-append before after)

Below-none : (low : ℕ) (bs : List Block) → length bs ≡ 0 → Below low low bs
Below-none low [] h = omega arith
Below-none low (b ∷ bs) h = absurd (omega arith)

releases-IsSound :
    (start_ size : ℕ) (h : Heap) (before : List Block) (b : Block) (after : List Block)
    → h.live ≡ before ++ b ∷ after
    → IsSound start_ size h
    → IsSound start_ size (record { pool = deallocate h.pool; live = before ++ after })
unfolding deallocate dealloc
releases-IsSound start_ size h before b after e s =
    let long : length h.live ≡ suc (length (before ++ after)) =
      ap length e ∙ length-remove before b after in
    let left : decrement h.pool.count ≡ length (before ++ after) =
      ap decrement (s.counted ∙ long)
      ∙ decrement-suc (length (before ++ after)) (omega (arith, long, s.countable)) in
    let below = Below-remove start_ h.pool.p before b after (rw e at s.below) in
    elim (Bool-cases (decrement h.pool.count == 0)) [
      | inl last ↦
          rw (last, deallocate, dealloc)
            (record {
              started = s.started;
              sized = s.sized;
              counted = left;
              countable = omega (arith, long, s.countable);
              below = rw s.started (Below-none start_ (before ++ after) (ground (arith, left)));
              within = omega (arith, s.started);
            })
      | inr more ↦
          rw (more, deallocate, dealloc)
            (record {
              started = s.started;
              sized = s.sized;
              counted = left;
              countable = omega (arith, long, s.countable);
              below = below;
              within = s.within;
            })
    ]

Step-IsSound :
    {start_ size sizeof : ℕ} {h k : Heap}
    → Step sizeof h k
    → IsSound start_ size h
    → IsSound start_ size k
Step-IsSound {start_} {size} {sizeof} {h} (allocates n at_ q small few e) s =
    allocates-IsSound start_ size sizeof n at_ h q small few e s
Step-IsSound {start_} {size} {h} (releases before b after e) s =
    releases-IsSound start_ size h before b after e s

-- Every reachable heap is sound.
pub Reach-IsSound :
    {sizeof start_ size : ℕ} {h : Heap} → Reach sizeof start_ size h → IsSound start_ size h
unfolding construct
Reach-IsSound start = record {
  started = refl;
  sized = refl;
  counted = refl;
  countable = omega arith;
  below = omega arith;
  within = omega arith;
}
Reach-IsSound (later r s) = Step-IsSound s (Reach-IsSound r)

Below-apart :
    (low bound : ℕ) (b : Block) (middle : List Block) (c : Block) (rest : List Block)
    → Below low bound (b ∷ (middle ++ c ∷ rest))
    → (c.0 + c.1 ≤ b.0) × Below low c.0 rest
Below-apart low bound b [] c rest h = h.1
Below-apart low bound b (d ∷ middle) c rest h =
    let (le, below) = Below-apart low b.0 d middle c rest h.1 in (omega (arith, le, h.1.0), below)

Below-low : (low bound : ℕ) (bs : List Block) → Below low bound bs → low ≤ bound
Below-low low bound [] h = h
Below-low low bound (b ∷ bs) h = omega (arith, Below-low low b.0 bs h.1, h.0)

Below-skip :
    (low bound : ℕ) (before : List Block) (b : Block) (rest : List Block)
    → Below low bound (before ++ b ∷ rest)
    → (b.0 + b.1 ≤ bound) × Below low b.0 rest
Below-skip low bound [] b rest h = h
Below-skip low bound (a ∷ before) b rest h =
    let (le, below) = Below-skip low a.0 before b rest h.1 in (omega (arith, h.0, le), below)

-- In every state that allocations, none of whose blocks would end past the last address, and
-- releases in any order reach from a new pool, with fewer blocks in use than a word counts, of two
-- blocks in use the earlier one starts within the pool's memory, the later one starts behind the
-- end of the earlier one, and it ends within the pool's memory.
pub Reach-apart :
    {sizeof start_ size : ℕ} {h : Heap} (before : List Block) (b : Block) (middle : List Block)
    (c : Block) (rest : List Block)
    → Reach sizeof start_ size h
    → h.live ≡ before ++ b ∷ (middle ++ c ∷ rest)
    → (start_ ≤ c.0) × (c.0 + c.1 ≤ b.0) × (b.0 + b.1 ≤ start_ + size)
Reach-apart {sizeof} {start_} {size} {h} before b middle c rest r e =
    let s = Reach-IsSound r in
    let (le, below) = Below-skip start_ h.pool.p before b (middle ++ c ∷ rest) (rw e at s.below) in
    let (apart, low) = Below-apart start_ (b.0 + b.1) b middle c rest (omega arith, below) in
    (Below-low start_ c.0 rest low, apart, omega (arith, le, s.within))

-- A request whose end wraps past the last address, up to where the memory ends, is given the next
-- block, and the allocator goes back behind the start of that block: the next one overlaps it.
pub alloc-wraps :
    (k : ℕ) (pool : StaticPool)
    → k < word
    → pool.p < word
    → word ≤ pool.p + k
    → pool.p + k - word < end_ pool
    → (alloc k pool).1 ≡ value pool.p × ((alloc k pool).0.p < pool.p)
unfolding alloc
alloc-wraps k pool small low wraps room =
    let last : (pool.p + k) % word ≡ pool.p + k - word = omega arith in
    let fits : leb (end_ pool) (pool.p + k - word) ≡ false = ground arith in
    rw (last, fits) (refl, omega arith)
