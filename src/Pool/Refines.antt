-- ===== src/Pool/Refines.antt =====
-- The operations of connection_pool.hpp as steps of the queue.
use stream_client.Common.{
  ap, ◌&&◌, Bool, inl, inr, Option, none, some, List, [], ◌∷◌, ◌++◌, map, Bool-cases, if◌then◌else◌,
  ℤ, keep,
}
use mathlib.Core.List.{Sublist}
use mathlib.Core.List.Sublist
use stream_client.ErrorCode.{ErrorCode}
use stream_client.Pool.Defs.{Pool, return_session, try_get_session}
use stream_client.Pool.Sweep.{erase_idle_lem, is_fresh}
use stream_client.Pool.Take.{Gets, lock_timed_out, was_empty, took, try_get_session-Gets}
use stream_client.Pool.Fifo.{sessions, sessions-return_session}
use stream_client.Pool.Queue.{
  Label, gave, stored, quiet, QueueStep, gives, stores, loses, QueueRun, stop, then_, all_given,
  all_stored, QueueRun-fifo,
}
use stream_client.Pool.Watch.{swept}

-- A call of a client, or a sweep.
pub data Op (S : Type 0) : Type 0 where
  tries_get : (locked : Bool) → ErrorCode → Op S
  returns_session : Option S → (locked : Bool) → ℤ → Op S
  is_swept : ℤ → Op S

module _ {S : Type 0} (is_open : S → Bool) where
  unfoldable pub run_op : Op S → Pool S → Label S × Pool S
  unfolding try_get_session return_session swept
  run_op (tries_get locked ec) p =
      let r = try_get_session locked ec p in (elim r.1 [ none ↦ quiet | some s ↦ gave s ], r.0)
  run_op (returns_session none locked now) p = (quiet, return_session is_open none locked now p)
  run_op (returns_session (some s) locked now) p = (
    (if is_open s && locked then stored s else quiet),
    return_session is_open (some s) locked now p,
  )
  run_op (is_swept now) p = (quiet, swept now p)

  unfoldable pub run_ops : List (Op S) → Pool S → List (Label S) × Pool S
  unfolding run_op
  run_ops [] p = ([], p)
  run_ops (o ∷ os) p = let r = run_op o p in let rest = run_ops os r.1 in (r.0 ∷ rest.0, rest.1)

module _ {S : Type 0} where
  same : (p : Pool S) → QueueStep (sessions p) quiet (sessions p)
  same p = loses (sessions p) (Sublist.refl (sessions p))

  keep-Sublist :
      (f : ℤ × S → Bool) (xs : List (ℤ × S))
      → Sublist (map (λ e. e.1) (keep f xs)) (map (λ e. e.1) xs)
  keep-Sublist f [] = Sublist.refl []
  keep-Sublist f (x ∷ xs) = elim (Bool-cases (f x)) [
    | inl e ↦ rw e (Sublist.cons-cons x.1 (keep-Sublist f xs))
    | inr e ↦ rw e (Sublist.cons x.1 (keep-Sublist f xs))
  ]

  pub swept-Sublist : (now : ℤ) (p : Pool S) → Sublist (sessions (swept now p)) (sessions p)
  unfolding swept
  swept-Sublist now p =
      rw (erase_idle_lem now p.idle_timeout p.sesson_pool)
        (keep-Sublist (is_fresh now p.idle_timeout) p.sesson_pool)

  swept-QueueStep : (now : ℤ) (p : Pool S) → QueueStep (sessions p) quiet (sessions (swept now p))
  swept-QueueStep now p = loses _ (swept-Sublist now p)

  Gets-QueueStep :
      (locked : Bool) (ec : ErrorCode) (p : Pool S) (r : Pool S × Option S × ErrorCode)
      → Gets locked ec p r
      → QueueStep (sessions p) (elim r.1 [ none ↦ quiet | some s ↦ gave s ]) (sessions r.0)
  Gets-QueueStep locked ec p r (lock_timed_out h e) = rw e (same p)
  Gets-QueueStep locked ec p r (was_empty h l e) = rw e (same p)
  Gets-QueueStep locked ec p r (took t s rest h l e) =
      rw e (gives s (map (λ x. x.1) rest) (ap (map (λ x. x.1)) l))

  return_session-QueueStep :
      (is_open : S → Bool) (s : S) (locked : Bool) (now : ℤ) (p : Pool S)
      → QueueStep
          (sessions p)
          (if is_open s && locked then stored s else quiet)
          (sessions (return_session is_open (some s) locked now p))
  return_session-QueueStep is_open s locked now p =
      rw (sessions-return_session is_open s locked now p) (elim (Bool-cases (is_open s && locked)) [
        | inl e ↦ rw e (stores s)
        | inr e ↦ rw e (same p)
      ])

  pub run_op-QueueStep :
      (is_open : S → Bool) (o : Op S) (p : Pool S)
      → QueueStep (sessions p) (run_op is_open o p).0 (sessions (run_op is_open o p).1)
  unfolding run_op
  run_op-QueueStep is_open (tries_get locked ec) p =
      Gets-QueueStep locked ec p _ (try_get_session-Gets locked ec p)
  run_op-QueueStep is_open (returns_session none locked now) p = unfold return_session in same p
  run_op-QueueStep is_open (returns_session (some s) locked now) p =
      return_session-QueueStep is_open s locked now p
  run_op-QueueStep is_open (is_swept now) p = swept-QueueStep now p

  -- Any calls of try_get_session and return_session and any sweeps, in any order, are a run of the
  -- abstract queue: each of them gives the first session, stores one at the end, or gives none and
  -- at most loses some.
  pub run_ops-QueueRun :
      (is_open : S → Bool) (os : List (Op S)) (p : Pool S)
      → QueueRun (sessions p) (run_ops is_open os p).0 (sessions (run_ops is_open os p).1)
  unfolding run_ops
  run_ops-QueueRun is_open [] p = stop
  run_ops-QueueRun is_open (o ∷ os) p =
      then_ (run_op-QueueStep is_open o p) (run_ops-QueueRun is_open os (run_op is_open o p).1)

  -- Through any calls of try_get_session and return_session and any sweeps, the sessions given,
  -- followed by those that wait in the end, are some of those that waited at first, followed by
  -- those stored, in the same order: no session is given twice, and none overtakes another.
  pub run_ops-fifo :
      (is_open : S → Bool) (os : List (Op S)) (p : Pool S)
      → let r = run_ops is_open os p in
        Sublist (all_given r.0 ++ sessions r.1) (sessions p ++ all_stored r.0)
  run_ops-fifo is_open os p = QueueRun-fifo (run_ops-QueueRun is_open os p)
