-- ===== src/Pool/Queue.antt =====
-- What connection_pool.hpp promises of its sessions, without locks, clocks and threads: a queue that
-- may lose sessions. A step gives the first session, stores one at the end, or loses some.
use stream_client.Common.{◌≡◌, List, [], ◌∷◌, ◌++◌}
use mathlib.Core.List.{Sublist, append_assoc, append-nil}
use mathlib.Core.List.Sublist

pub data Label (S : Type 0) : Type 0 where
  gave : S → Label S
  stored : S → Label S
  quiet : Label S

pub data QueueStep {S : Type 0} (q : List S) : Label S → List S → Type 0 where
  gives : (s : S) (r : List S) → q ≡ s ∷ r → QueueStep q (gave s) r
  stores : (s : S) → QueueStep q (stored s) (q ++ s ∷ [])
  loses : (r : List S) → Sublist r q → QueueStep q quiet r

pub data QueueRun {S : Type 0} : List S → List (Label S) → List S → Type 0 where
  stop : {q : List S} → QueueRun q [] q
  then_ :
      {q : List S} {l : Label S} {r : List S} {ls : List (Label S)} {t : List S}
      → QueueStep q l r
      → QueueRun r ls t
      → QueueRun q (l ∷ ls) t

module _ {S : Type 0} where
  -- The sessions that a run gives, and those that it stores, in order.
  abbrev pub all_given : List (Label S) → List S
  all_given [] = []
  all_given (gave s ∷ ls) = s ∷ all_given ls
  all_given (stored s ∷ ls) = all_given ls
  all_given (quiet ∷ ls) = all_given ls

  abbrev pub all_stored : List (Label S) → List S
  all_stored [] = []
  all_stored (gave s ∷ ls) = all_stored ls
  all_stored (stored s ∷ ls) = s ∷ all_stored ls
  all_stored (quiet ∷ ls) = all_stored ls

  pub QueueRun-append :
      {q r t : List S} {ls ms : List (Label S)}
      → QueueRun q ls r
      → QueueRun r ms t
      → QueueRun q (ls ++ ms) t
  QueueRun-append stop run = run
  QueueRun-append (then_ s rest) run = then_ s (QueueRun-append rest run)

  -- Nothing is given out of order: what a run gives and what then waits is part of what waited and
  -- what is stored, in the same order.
  pub QueueRun-fifo :
      {q t : List S} {ls : List (Label S)}
      → QueueRun q ls t
      → Sublist (all_given ls ++ t) (q ++ all_stored ls)
  QueueRun-fifo {q} stop = rw append-nil (Sublist.refl q)
  QueueRun-fifo (then_ (gives s r e) run) = rw e (Sublist.cons-cons s (QueueRun-fifo run))
  QueueRun-fifo {q} (then_ (stores s) run) = rw (append_assoc q (s ∷ []) _) at (QueueRun-fifo run)
  QueueRun-fifo {q} (then_ (loses r h) run) =
      Sublist.trans (QueueRun-fifo run) (Sublist.append h (Sublist.refl _))
